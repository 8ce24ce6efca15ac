-- ===== src/Builds/Available.antt =====
-- Which backends a build has (keyring.go over the `init` functions).
use keyring.Prelude.{
  ◌≡◌, refl, ap, Bytes, codes, Bool, true, false, not, ◌&&◌, is_some, List, [], ◌∷◌, arith,
  Bool-cases, inl, inr, ◌∙◌, ◌==◌, list_eq, nat_eq, if◌then◌else◌,
}
use keyring.Exec.{Exec, Result, is_ok}
use keyring.Api.{
  BackendType, secret_service_backend, keychain_backend, key_ctl_backend, k_wallet_backend,
  win_cred_backend, win_hello_backend, file_backend, pass_backend, passage_backend, op_backend,
  op_connect_backend, op_desktop_backend,
}
use keyring.Open.{Opener, Supported, available_backends, available_of}
use keyring.WinHello.Window.{Ask}
use keyring.Builds.{
  Build, System, Openers, is_linux, is_apple, is_windows, is_freebsd, built, registered,
  init_kwallet, init_secret_service, init_package,
}

is_some-built :
    {W K : Type 0} (b : Bool) (backend : BackendType) (opener : Opener W K) (table : Supported W K)
    (k : BackendType)
    → is_some (built b backend opener table k)
      ≡ (if backend == k then (if b then true else is_some (table k)) else is_some (table k))
is_some-built true backend opener table k = ground arith
is_some-built false backend opener table k = ground arith

if_collapses : (b : Bool) → (if b then true else false) ≡ b
if_collapses true = refl
if_collapses false = refl

abbrev when : Bool → BackendType → List BackendType → List BackendType
when b k rest = if b then k ∷ rest else rest

module _ (build : Build) where
  abbrev one_password : List BackendType
  one_password =
      if build.no_one_password
      then []
      else op_connect_backend ∷ op_backend ∷ op_desktop_backend ∷ []

  abbrev file_and : List BackendType → List BackendType
  file_and rest = when (not build.no_file) file_backend rest

  abbrev stores_and : List BackendType → List BackendType
  stores_and rest =
      when (not build.no_pass) pass_backend
        (when (not build.no_passage) passage_backend (file_and rest))

  -- The backends of each system, in the order of preference.
  abbrev pub offered : System → (bus kwallet : Bool) → List BackendType
  offered System.linux bus kwallet =
      when bus secret_service_backend
        (when kwallet k_wallet_backend (key_ctl_backend ∷ stores_and one_password))
  offered System.darwin bus kwallet = when build.cgo keychain_backend (stores_and one_password)
  offered System.ios bus kwallet = when build.cgo keychain_backend (stores_and one_password)
  offered System.windows bus kwallet = win_cred_backend ∷ win_hello_backend ∷ file_and one_password
  offered System.freebsd bus kwallet = stores_and []
  offered System.other bus kwallet = stores_and one_password

module _ {W K : Type 0} (openers : Openers W K) (build : Build) where
  abbrev ordered : System → Bool → Bool → List BackendType
  ordered s kwallet secrets = when (is_windows s) win_cred_backend (
      when (is_windows s) win_hello_backend (
        when (is_apple s && build.cgo) keychain_backend (
          when (is_linux s && secrets) secret_service_backend (
            when (is_linux s && kwallet) k_wallet_backend (
              when (is_linux s) key_ctl_backend (
                when (not (is_windows s) && not build.no_pass) pass_backend (
                  when (not (is_windows s) && not build.no_passage) passage_backend (
                    when (not build.no_file) file_backend (
                      when (not (is_freebsd s) && not build.no_one_password) op_connect_backend (
                        when (not (is_freebsd s) && not build.no_one_password) op_backend (
                          when (not (is_freebsd s) && not build.no_one_password) op_desktop_backend
                            [])))))))))))

  ordered-offered :
      (s : System) (kwallet secrets : Bool)
      → ordered s kwallet secrets ≡ offered build s secrets kwallet
  ordered-offered System.linux kwallet secrets = ground arith
  ordered-offered System.darwin kwallet secrets = ground arith
  ordered-offered System.ios kwallet secrets = ground arith
  ordered-offered System.windows kwallet secrets = ground arith
  ordered-offered System.freebsd kwallet secrets = ground arith
  ordered-offered System.other kwallet secrets = ground arith

  available_registered :
      (kwallet secrets : Bool)
      → available_backends (registered openers build kwallet secrets)
        ≡ ordered build.system kwallet secrets
  unfolding registered available_backends available_of list_eq nat_eq
  available_registered kwallet secrets = simp (is_some-built, if_collapses) refl

  available_offered :
      (kwallet secrets : Bool)
      → available_backends (registered openers build kwallet secrets)
        ≡ offered build build.system secrets kwallet
  available_offered kwallet secrets =
      available_registered kwallet secrets ∙ ordered-offered build.system kwallet secrets

  offered-elsewhere :
      (s : System) (bus kwallet : Bool)
      → is_linux s ≡ false
      → offered build s false false ≡ offered build s bus kwallet
  offered-elsewhere System.linux bus kwallet h = cc
  offered-elsewhere System.darwin bus kwallet h = refl
  offered-elsewhere System.ios bus kwallet h = refl
  offered-elsewhere System.windows bus kwallet h = refl
  offered-elsewhere System.freebsd bus kwallet h = refl
  offered-elsewhere System.other bus kwallet h = refl

  -- `AvailableBackends` of a build lists what its system and its tags offer, in the order of
  -- preference: on Linux the Secret Service only if D-Bus could be reached when the program
  -- started, and KWallet only if it was not turned off either.
  pub available_backends-init_package :
      (getenv : Bytes → Ask W Bytes) (session_bus : Exec W Unit) (w : W) (disable : Bytes)
      (bus : Result Unit)
      → getenv (codes "DISABLE_KWALLET") w ≡ (disable, w)
      → session_bus w ≡ (bus, w)
      → available_backends (init_package getenv session_bus openers build w).0
        ≡ offered build build.system (is_ok bus) (not (disable == codes "1") && is_ok bus)
  unfolding init_package init_kwallet init_secret_service
  available_backends-init_package getenv session_bus w disable bus asks answers =
      let kwallet = not (disable == codes "1") && is_ok bus in
      elim (Bool-cases (is_linux build.system)) [
        | inl e ↦
            let table : (init_package getenv session_bus openers build w).0
                ≡ registered openers build kwallet (is_ok bus) =
              ground (arith, e, asks, answers) in
            ap available_backends table ∙ available_offered kwallet (is_ok bus)
        | inr e ↦
            let table : (init_package getenv session_bus openers build w).0
                ≡ registered openers build false false =
              ground (arith, e) in
            ap available_backends table
            ∙ available_offered false false
            ∙ offered-elsewhere build.system (is_ok bus) kwallet e
      ]
