-- ===== src/OnePassword/Desktop.antt =====
-- opdesktop.go: the backend over the 1Password desktop application.
pub mod Opening
use keyring.Prelude.{ℕ, Bytes, codes, [], ◌∷◌, ◌++◌, ◌==◌, nat_eq, if◌then◌else◌}
use keyring.Prelude.Int.{ℤ, is_zero}
use keyring.Errors.{
  Error, sentinel, wrapf, wrapf_both, op_desktop_err_client, op_desktop_err_keyring,
}
use keyring.Exec.{Exec, Result, on_error}
use keyring.Api.{Config, Keyring, ItemCodec}
use keyring.WinHello.Window.{Ask}
use keyring.OnePassword.Base.{OpBaseKeyring}
use keyring.OnePassword.Sdk.{Client}
use keyring.OnePassword.Settings.{
  unset, setting_or_env, unless_errors, base_keyring, op_env_vault_id, op_err_vault_id,
}
use keyring.OnePassword.Held.{Holder, initialize_client, held_ring}

abbrev pub op_desktop_env_account_id : Bytes
op_desktop_env_account_id = codes "OP_DESKTOP_ACCOUNT_ID"

abbrev op_desktop_err_account_id : Error
op_desktop_err_account_id = unset (sentinel op_desktop_err_keyring)

abbrev op_desktop_err_new_client : Error
op_desktop_err_new_client =
    wrapf "%w: onepassword.NewClient returned an error" (sentinel op_desktop_err_client)

abbrev op_desktop_err_timeout : Error
op_desktop_err_timeout =
    wrapf "%w: Timeout must be a non-zero duration" (sentinel op_desktop_err_keyring)

-- The fields that no method changes.
pub record OpDesktopKeyring (W : Type 0) : Type 0 where
  pub base : OpBaseKeyring W
  pub timeout : ℤ
  pub desktop_account_id : Bytes

module _ {W : Type 0} where
  pub new_op_desktop_keyring :
      (Bytes → Ask W Bytes) → Config W → Ask W (Result (OpDesktopKeyring W))
  new_op_desktop_keyring getenv cfg w =
      let timeout_errs = if is_zero cfg.op_timeout then op_desktop_err_timeout ∷ [] else [] in
      let ((vault_id, vault_errs), w₁) =
        setting_or_env getenv cfg.op_vault_id op_env_vault_id op_err_vault_id w in
      let ((account_id, account_errs), w₂) =
        setting_or_env getenv cfg.op_desktop_account_id op_desktop_env_account_id
          op_desktop_err_account_id w₁ in
      (
        unless_errors (timeout_errs ++ (vault_errs ++ account_errs)) (record {
          base = base_keyring cfg vault_id [];
          timeout = cfg.op_timeout;
          desktop_account_id = account_id;
        }),
        w₂,
      )

  -- `onepassword.NewClient` with the account is a parameter.
  module _ (new_client : Bytes → Exec W (Client W)) (json : ItemCodec)
      (k : OpDesktopKeyring W) where
    pub make_desktop_client : Exec W (Client W)
    make_desktop_client =
        on_error (wrapf_both "%w: %w" op_desktop_err_new_client) (new_client k.desktop_account_id)

    pub initialize_desktop_client : Exec (Holder W) Unit
    initialize_desktop_client = initialize_client make_desktop_client

    abbrev pub op_desktop_ring : Keyring (Holder W)
    op_desktop_ring = held_ring make_desktop_client json k.base
