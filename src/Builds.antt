-- ===== src/Builds.antt =====
-- The `init` functions, which fill the table of supported backends, and the build constraints of
-- the files that they stand in. What each of them registers is an opener.
pub mod Available
use keyring.Prelude.{
  Bytes, codes, Bool, true, false, not, ◌&&◌, none, some, ◌==◌, list_eq, nat_eq, if◌then◌else◌,
}
use keyring.Exec.{Exec, is_ok}
use keyring.Api.{
  BackendType, secret_service_backend, keychain_backend, key_ctl_backend, k_wallet_backend,
  win_cred_backend, win_hello_backend, file_backend, pass_backend, passage_backend, op_backend,
  op_connect_backend, op_desktop_backend,
}
use keyring.Open.{Opener, Supported}
use keyring.WinHello.Window.{Ask}

-- `GOOS`, of which the build constraints tell these apart.
pub data System : Type 0 where
  linux darwin ios windows freebsd other : System

pub record Build : Type 0 where
  pub system : System
  pub cgo : Bool
  -- the tags `keyring_nofile`, `keyring_nopass`, `keyring_nopassage` and `keyring_no1password`
  pub no_file : Bool
  pub no_pass : Bool
  pub no_passage : Bool
  pub no_one_password : Bool

abbrev pub is_linux : System → Bool
is_linux System.linux = true
is_linux s = false

-- On iOS the tag `darwin` is set too.
abbrev pub is_apple : System → Bool
is_apple System.darwin = true
is_apple System.ios = true
is_apple s = false

abbrev pub is_windows : System → Bool
is_windows System.windows = true
is_windows s = false

abbrev pub is_freebsd : System → Bool
is_freebsd System.freebsd = true
is_freebsd s = false

-- What each `init` function registers.
pub record Openers (W K : Type 0) : Type 0 where
  pub secret_service : Opener W K
  pub keychain : Opener W K
  pub key_ctl : Opener W K
  pub k_wallet : Opener W K
  pub win_cred : Opener W K
  pub win_hello : Opener W K
  pub file : Opener W K
  pub pass : Opener W K
  pub passage : Opener W K
  pub op : Opener W K
  pub op_connect : Opener W K
  pub op_desktop : Opener W K

module _ {W K : Type 0} where
  -- `supportedBackends[backend] = opener`.
  abbrev pub register : BackendType → Opener W K → Supported W K → Supported W K
  register backend opener table k = if backend == k then some opener else table k

  -- The same in a file that is built under a constraint.
  abbrev pub built : Bool → BackendType → Opener W K → Supported W K → Supported W K
  built true backend opener table = register backend opener table
  built false backend opener table = table

module _ {W K : Type 0} (openers : Openers W K) (build : Build) where
  -- The files of the package in the order in which Go initialises them, from whether the `init`
  -- functions of kwallet.go and of secretservice.go register.
  unfoldable pub registered : Bool → Bool → Supported W K
  registered kwallet secrets =
      let on_linux = is_linux build.system in
      let one_password = not (is_freebsd build.system) && not build.no_one_password in
      built (is_windows build.system) win_hello_backend openers.win_hello (
        built (is_windows build.system) win_cred_backend openers.win_cred (
          built (on_linux && secrets) secret_service_backend openers.secret_service (
            built (not (is_windows build.system) && not build.no_passage) passage_backend
              openers.passage
              (built (not (is_windows build.system) && not build.no_pass) pass_backend openers.pass
                (built one_password op_backend openers.op (
                  built one_password op_desktop_backend openers.op_desktop (
                    built one_password op_connect_backend openers.op_connect (
                      built (on_linux && kwallet) k_wallet_backend openers.k_wallet (
                        built on_linux key_ctl_backend openers.key_ctl (
                          built (is_apple build.system && build.cgo) keychain_backend
                            openers.keychain
                            (built (not build.no_file) file_backend openers.file
                              (λ k. none))))))))))))

module _ {W : Type 0} (getenv : Bytes → Ask W Bytes) (session_bus : Exec W Unit) where
  -- Whether `init` of secretservice.go registers its opener: it silently does not without D-Bus.
  unfoldable pub init_secret_service : Ask W Bool
  init_secret_service w = let (bus, w₁) = session_bus w in (is_ok bus, w₁)

  -- Whether `init` of kwallet.go does, which can be turned off.
  unfoldable pub init_kwallet : Ask W Bool
  init_kwallet w =
      let (disable, w₁) = getenv (codes "DISABLE_KWALLET") w in
      let (bus, w₂) = session_bus w₁ in
      if disable == codes "1" then (false, w₁) else (is_ok bus, w₂)

  module _ {K : Type 0} (openers : Openers W K) (build : Build) where
    -- Only a Linux build has the two that ask.
    unfoldable pub init_package : Ask W (Supported W K)
    unfolding init_kwallet init_secret_service
    init_package w =
        if is_linux build.system
        then (let (kwallet, w₁) = init_kwallet w in
            let (secrets, w₂) = init_secret_service w₁ in
            (registered openers build kwallet secrets, w₂))
        else (registered openers build false false, w)
