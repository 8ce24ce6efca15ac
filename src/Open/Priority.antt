-- ===== src/Open/Priority.antt =====
-- What `AvailableBackends` lists, and what the order of `backendOrder` (keyring.go) means for
-- `Open`.
use keyring.Prelude.{
  ◌≡◌, refl, ◌∙◌, true, ◌&&◌, none, some, List, [], ◌∷◌, ◌++◌, arith, contains, list_eq, nat_eq,
  is_some,
}
use keyring.Exec.{is_ok}
use keyring.Api.{
  BackendType, Config, secret_service_backend, keychain_backend, key_ctl_backend, k_wallet_backend,
  win_cred_backend, win_hello_backend, file_backend, pass_backend, passage_backend,
  op_connect_backend, op_backend, op_desktop_backend,
}
use keyring.Open.{
  Supported, Opener, backend_order, available_of, available_backends, open_loop, open_keyring,
}

-- The entries of `backendOrder` up to the file backend, and those behind it.
abbrev up_to_file : List BackendType
up_to_file =
    win_cred_backend ∷ win_hello_backend ∷ keychain_backend ∷ secret_service_backend
    ∷ k_wallet_backend ∷ key_ctl_backend ∷ pass_backend ∷ passage_backend ∷ []

abbrev one_password : List BackendType
one_password = op_connect_backend ∷ op_backend ∷ op_desktop_backend ∷ []

module _ {W K : Type 0} (supported : Supported W K) where
  contains-available_of :
      (order : List BackendType) (b : BackendType)
      → contains (available_of supported order) b ≡ (contains order b && is_some (supported b))
  unfolding available_of contains
  contains-available_of [] b = refl
  contains-available_of (k ∷ order) b = ground (arith, contains-available_of order b)

  -- The available backends are the supported ones among those of `backendOrder`.
  contains-available_backends :
      (b : BackendType)
      → contains (available_backends supported) b
        ≡ (contains backend_order b && is_some (supported b))
  unfolding available_backends
  contains-available_backends b = contains-available_of backend_order b

  -- The loop passes over what is not supported, so that listing the available ones is no loss.
  open_loop-available_of :
      (cfg : Config W) (bs : List BackendType) (w : W)
      → open_loop supported cfg (available_of supported bs) w ≡ open_loop supported cfg bs w
  unfolding open_loop available_of
  open_loop-available_of cfg [] w = refl
  open_loop-available_of cfg (b ∷ bs) w = ground (
    arith,
    open_loop-available_of cfg bs w,
    open_loop-available_of cfg bs (elim (supported b) [ none ↦ w | some o ↦ (o cfg w).1 ]),
  )

  module _ (b : BackendType) (opener : Opener W K) (entry : supported b ≡ some opener)
      (opens : (cfg : Config W) (w : W) → is_ok (opener cfg w).0 ≡ true) where
    open_loop_stops :
        (cfg : Config W) (before after : List BackendType) (w : W)
        → open_loop supported cfg (before ++ b ∷ after) w
          ≡ open_loop supported cfg (before ++ b ∷ []) w
    unfolding open_loop
    open_loop_stops cfg [] after w = ground (arith, opens cfg w)
    open_loop_stops cfg (k ∷ before) after w = ground (
      arith,
      open_loop_stops cfg before after w,
      open_loop_stops cfg before after (elim (supported k) [ none ↦ w | some o ↦ (o cfg w).1 ]),
    )

  -- Where the file backend is built in and its opener never fails, `Open` with no list of allowed
  -- backends does just what it does with the backends up to the file backend. So the 1Password
  -- backends, which stand behind it, are never opened on their own account.
  pub open_keyring-up_to_file :
      (opener : Opener W K) (cfg : Config W) (w : W)
      → supported file_backend ≡ some opener
      → ((c : Config W) (v : W) → is_ok (opener c v).0 ≡ true)
      → cfg.allowed_backends ≡ none
      → open_keyring supported cfg w
        ≡ open_loop supported
            (record cfg { allowed_backends = some (available_backends supported) })
            (up_to_file ++ file_backend ∷ [])
            w
  unfolding open_keyring available_backends
  open_keyring-up_to_file opener cfg w entry opens nothing =
      let cfg' : Config W = record cfg {
        allowed_backends = some (available_of supported backend_order);
      } in
      rw nothing (
        open_loop-available_of cfg' backend_order w
        ∙ open_loop_stops file_backend opener entry opens cfg' up_to_file one_password w)
