-- ===== src/OnePassword/SrvAccount.antt =====
-- opsrvaccount.go: the backend over 1Password Service Accounts.
use keyring.Prelude.{Bytes, codes, [], ◌∷◌, ◌++◌, nat_eq, if◌then◌else◌}
use keyring.Prelude.Int.{ℤ, is_zero}
use keyring.Errors.{
  Error, sentinel, wrapf, wrapf_both, op_srv_account_err_client, op_srv_account_err_keyring,
}
use keyring.Exec.{Exec, Result, on_error, ◌>>=◌}
use keyring.Api.{Config, Keyring, ItemCodec}
use keyring.WinHello.Window.{Ask}
use keyring.OnePassword.Base.{OpBaseKeyring, op_token}
use keyring.OnePassword.Sdk.{Client}
use keyring.OnePassword.Settings.{
  setting_or_env, unless_errors, base_keyring, op_env_vault_id, op_err_vault_id,
}
use keyring.OnePassword.Held.{Holder, initialize_client, held_ring}

abbrev op_srv_account_env_token : Bytes
op_srv_account_env_token = codes "OP_SERVICE_ACCOUNT_TOKEN"

abbrev op_srv_account_err_new_client : Error
op_srv_account_err_new_client =
    wrapf "%w: onepassword.NewClient returned an error" (sentinel op_srv_account_err_client)

abbrev op_srv_account_err_timeout : Error
op_srv_account_err_timeout =
    wrapf "%w: Timeout must be a non-zero duration" (sentinel op_srv_account_err_keyring)

-- The fields that no method changes.
pub record OpSrvAccountKeyring (W : Type 0) : Type 0 where
  pub base : OpBaseKeyring W
  pub timeout : ℤ

module _ {W : Type 0} (getenv : Bytes → Ask W Bytes) where
  pub new_op_srv_account_keyring : Config W → Ask W (Result (OpSrvAccountKeyring W))
  new_op_srv_account_keyring cfg w =
      let timeout_errs = if is_zero cfg.op_timeout then op_srv_account_err_timeout ∷ [] else [] in
      let ((vault_id, vault_errs), w₁) =
        setting_or_env getenv cfg.op_vault_id op_env_vault_id op_err_vault_id w in
      (
        unless_errors (timeout_errs ++ vault_errs) (record {
          base = base_keyring cfg vault_id (cfg.op_token_env ∷ op_srv_account_env_token ∷ []);
          timeout = cfg.op_timeout;
        }),
        w₁,
      )

  -- `onepassword.NewClient` with the token is a parameter.
  module _ (new_client : Bytes → Exec W (Client W)) (json : ItemCodec)
      (k : OpSrvAccountKeyring W) where
    pub make_srv_account_client : Exec W (Client W)
    make_srv_account_client = do
      token ← op_token k.base getenv (codes "Enter 1Password service account token")
      on_error (wrapf_both "%w: %w" op_srv_account_err_new_client) (new_client token)

    pub initialize_srv_account_client : Exec (Holder W) Unit
    initialize_srv_account_client = initialize_client make_srv_account_client

    abbrev pub op_srv_account_ring : Keyring (Holder W)
    op_srv_account_ring = held_ring make_srv_account_client json k.base
