-- ===== src/Open.antt =====
-- keyring.go: the table of supported backends and `Open`.
pub mod Selection
pub mod Priority
use keyring.Prelude.{Option, none, some, List, [], ◌∷◌, if◌then◌else◌, is_some}
use keyring.Errors.{sentinel, err_no_avail_impl}
use keyring.Exec.{Exec, ok, err, raise, attempt, ◌>>=◌, pure}
use keyring.Api.{
  BackendType, Config, secret_service_backend, keychain_backend, key_ctl_backend, k_wallet_backend,
  win_cred_backend, win_hello_backend, file_backend, pass_backend, passage_backend, op_backend,
  op_connect_backend, op_desktop_backend,
}

abbrev pub backend_order : List BackendType
backend_order =
    win_cred_backend ∷ win_hello_backend ∷ keychain_backend ∷ secret_service_backend
    ∷ k_wallet_backend ∷ key_ctl_backend ∷ pass_backend ∷ passage_backend ∷ file_backend
    ∷ op_connect_backend ∷ op_backend ∷ op_desktop_backend ∷ []

module _ (W K : Type 0) where
  abbrev pub Opener : Type 0
  Opener = Config W → Exec W K

  -- `supportedBackends`, as the `init` functions of a build leave it.
  abbrev pub Supported : Type 0
  Supported = BackendType → Option Opener

module _ {W K : Type 0} (supported : Supported W K) where
  -- The loop of `AvailableBackends`.
  unfoldable pub available_of : List BackendType → List BackendType
  available_of [] = []
  available_of (k ∷ order) =
      let rest = available_of order in if is_some (supported k) then k ∷ rest else rest

  unfoldable pub available_backends : List BackendType
  available_backends = available_of backend_order

  -- The loop of `Open`. A failed backend is passed over, with what it did to the world.
  unfoldable pub open_loop : Config W → List BackendType → Exec W K
  open_loop cfg [] = raise (sentinel err_no_avail_impl)
  open_loop cfg (backend ∷ rest) = elim (supported backend) [
    | none ↦ open_loop cfg rest
    | some opener ↦ do
      r ← attempt (opener cfg)
      elim r [ ok ring ↦ pure ring | err e ↦ open_loop cfg rest ]
  ]

  open_allowed : Config W → Option (List BackendType) → Exec W K
  open_allowed cfg none =
      open_loop (record cfg { allowed_backends = some available_backends }) available_backends
  open_allowed cfg (some allowed) = open_loop cfg allowed

  unfoldable pub open_keyring : Config W → Exec W K
  unfolding open_allowed
  open_keyring cfg = open_allowed cfg cfg.allowed_backends
