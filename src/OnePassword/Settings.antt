-- ===== src/OnePassword/Settings.antt =====
-- How opconnect.go, opsrvaccount.go and opdesktop.go take the settings that they share from the
-- configuration and the environment.
use keyring.Prelude.{Bytes, codes, List, [], ◌∷◌, is_empty, or_default, if◌then◌else◌}
use keyring.Errors.{Error, sentinel, wrapf_both, join, err_env_unset_or_empty, op_err_keyring}
use keyring.Exec.{Result, ok, err}
use keyring.Api.{Config}
use keyring.WinHello.Window.{Ask}
use keyring.OnePassword.Base.{OpBaseKeyring}

-- `OPErrVaultID`, and the errors of the same form.
abbrev pub unset : Error → Error
unset keyring_error = wrapf_both "%w: %w: %#v" keyring_error (sentinel err_env_unset_or_empty)

abbrev pub op_err_vault_id : Error
op_err_vault_id = unset (sentinel op_err_keyring)

abbrev pub op_item_title_prefix : Bytes
op_item_title_prefix = codes "keyring"

abbrev pub op_item_tag : Bytes
op_item_tag = codes "keyring"

abbrev pub op_item_field_title : Bytes
op_item_field_title = codes "keyring"

abbrev pub op_env_vault_id : Bytes
op_env_vault_id = codes "OP_VAULT_ID"

module _ {W : Type 0} (getenv : Bytes → Ask W Bytes) where
  -- A setting, or the environment variable in its place, or an error if that is empty too.
  unfoldable pub setting_or_env : Bytes → Bytes → Error → Ask W (Bytes × List Error)
  setting_or_env value env e w =
      let (from_env, w₁) = getenv env w in
      if is_empty value
      then if is_empty from_env then ((from_env, e ∷ []), w₁) else ((from_env, []), w₁)
      else ((value, []), w)

-- `errors.Join(errs...)` if there are any.
unfoldable pub unless_errors : {A : Type 0} → List Error → A → Result A
unless_errors [] x = ok x
unless_errors (e ∷ errs) x = err (join (e ∷ errs))

-- The shared fields, once the vault is known.
abbrev pub base_keyring : {W : Type 0} → Config W → Bytes → List Bytes → OpBaseKeyring W
base_keyring cfg vault_id token_envs = record {
  vault_id = vault_id;
  item_title_prefix = or_default cfg.op_item_title_prefix op_item_title_prefix;
  item_tag = or_default cfg.op_item_tag op_item_tag;
  item_field_title = or_default cfg.op_item_field_title op_item_field_title;
  token_envs = token_envs;
  token_func = cfg.op_token_func;
}
