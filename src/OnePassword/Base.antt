-- ===== src/OnePassword/Base.antt =====
-- opcommon.go: the configuration that the 1Password backends share, titles and tokens.
use keyring.Prelude.{
  Bytes, codes, Option, none, some, List, [], ◌∷◌, ◌++◌, is_empty, trim_prefix, if◌then◌else◌,
}
use keyring.Errors.{Error, sentinel, wrapf, op_err_client}
use keyring.Exec.{ok, err}
use keyring.Api.{Prompt}
use keyring.WinHello.Window.{Ask}

pub record OpBaseKeyring (W : Type 0) : Type 0 where
  pub vault_id : Bytes
  pub item_title_prefix : Bytes
  pub item_tag : Bytes
  pub item_field_title : Bytes
  pub token_envs : List Bytes
  pub token_func : Option (Prompt W)

abbrev pub item_title_prefix_key_sep : Bytes
item_title_prefix_key_sep = codes ": "

abbrev pub token_func_nil : Error
token_func_nil = wrapf "%w: Token function is nil" (sentinel op_err_client)

module _ {W : Type 0} (k : OpBaseKeyring W) where
  unfoldable pub title_from_key : Bytes → Bytes
  title_from_key key = k.item_title_prefix ++ (item_title_prefix_key_sep ++ key)

  unfoldable pub key_from_title : Bytes → Bytes
  key_from_title title = trim_prefix title (k.item_title_prefix ++ item_title_prefix_key_sep)

  token_prompt : Option (Prompt W) → Prompt W
  token_prompt none prompt w = (err token_func_nil, w)
  token_prompt (some func) prompt w = func prompt w

  first_token : (Bytes → Ask W Bytes) → List Bytes → Prompt W
  unfolding token_prompt
  first_token getenv [] prompt w = token_prompt k.token_func prompt w
  first_token getenv (env ∷ envs) prompt w =
      let (token, w₁) = getenv env w in
      let rest = first_token getenv envs prompt w₁ in
      if is_empty token then rest else (ok token, w₁)

  -- `GetOPToken`, over `os.Getenv`.
  pub op_token : (Bytes → Ask W Bytes) → Prompt W
  unfolding first_token
  op_token getenv = first_token getenv k.token_envs
