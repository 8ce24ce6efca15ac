-- ===== src/Tests/Accounts.antt =====
-- An environment that names an account.
use keyring.Prelude.{ℕ, ◌≡◌, ◌≢◌, ◌↔◌, refl, Bytes, codes, true}
use keyring.Prelude.Int.{pos}
use keyring.Exec.{is_ok}
use keyring.Api.{Config}
use keyring.WinHello.Window.{Ask}
use keyring.OnePassword.Settings.{op_env_vault_id}
use keyring.OnePassword.Desktop.{new_op_desktop_keyring, op_desktop_env_account_id}
use keyring.OnePassword.Desktop.Opening.{IsGiven, new_op_desktop_keyring_iff}
use keyring.Tests.Opening.{config}

abbrev env : Bytes → Bytes
env name = codes "account"

abbrev getenv : Bytes → Ask ℕ Bytes
getenv name w = (env name, w)

abbrev timed : Config ℕ
timed = record config { op_timeout = pos 5 }

new_op_desktop_keyring_iff_example : (is_ok (new_op_desktop_keyring getenv timed 0).0 ≡ true) ↔ (
    (timed.op_timeout ≢ pos 0)
    × (IsGiven env (codes "vault") op_env_vault_id
        × IsGiven env (codes "") op_desktop_env_account_id))
new_op_desktop_keyring_iff_example = new_op_desktop_keyring_iff getenv env 0 (λ name. refl) timed
