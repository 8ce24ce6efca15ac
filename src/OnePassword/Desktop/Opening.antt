-- ===== src/OnePassword/Desktop/Opening.antt =====
-- When a 1Password desktop keyring can be made (opdesktop.go).
use keyring.Prelude.{
  ◌≡◌, ◌≢◌, ◌↔◌, refl, Bytes, true, false, ◌&&◌, List, [], ◌∷◌, is_empty, nat_eq, if◌then◌else◌,
  arith,
}
use keyring.Prelude.Int.{pos, is_zero_iff}
use keyring.Errors.{Error}
use keyring.Exec.{is_ok}
use keyring.Api.{Config}
use keyring.WinHello.Window.{Ask}
use keyring.OnePassword.Settings.{setting_or_env, unless_errors, op_env_vault_id, op_err_vault_id}
use keyring.OnePassword.Desktop.{
  new_op_desktop_keyring, op_desktop_env_account_id, op_desktop_err_account_id,
}

-- The setting itself or its environment variable is there.
abbrev pub IsGiven : (Bytes → Bytes) → Bytes → Bytes → Type 0
IsGiven env value name = (is_empty value && is_empty (env name)) ≡ false

module _ {W : Type 0} (getenv : Bytes → Ask W Bytes) (env : Bytes → Bytes) (w : W)
    (same : (name : Bytes) → getenv name w ≡ (env name, w)) where
  setting_or_env-errors :
      (value name : Bytes) (e : Error)
      → setting_or_env getenv value name e w ≡ (
        (
          if is_empty value then env name else value,
          if is_empty value && is_empty (env name) then e ∷ [] else [],
        ),
        w,
      )
  unfolding setting_or_env
  setting_or_env-errors value name e = rw (same name) (ground arith)

  is_ok-unless_errors :
      {A : Type 0} (errs : List Error) (x : A) → is_ok (unless_errors errs x) ≡ is_empty errs
  unfolding unless_errors
  is_ok-unless_errors [] x = refl
  is_ok-unless_errors (e ∷ errs) x = refl

  -- Where the environment does not change meanwhile, the keyring is made exactly if the timeout is
  -- not 0 and the vault and the account are configured or in the environment.
  pub new_op_desktop_keyring_iff :
      (cfg : Config W)
      → (is_ok (new_op_desktop_keyring getenv cfg w).0 ≡ true) ↔ (
          (cfg.op_timeout ≢ pos 0)
          × (IsGiven env cfg.op_vault_id op_env_vault_id
              × IsGiven env cfg.op_desktop_account_id op_desktop_env_account_id))
  unfolding new_op_desktop_keyring
  new_op_desktop_keyring_iff cfg =
      rw
        (
          setting_or_env-errors cfg.op_vault_id op_env_vault_id op_err_vault_id,
          setting_or_env-errors cfg.op_desktop_account_id op_desktop_env_account_id
              op_desktop_err_account_id,
          is_ok-unless_errors,
        )
        (
          λ h. ground (arith, is_zero_iff cfg.op_timeout),
          λ h. ground (arith, is_zero_iff cfg.op_timeout),
        )
