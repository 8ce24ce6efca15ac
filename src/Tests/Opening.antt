-- ===== src/Tests/Opening.antt =====
-- Backends of which one fails and one opens.
use keyring.Prelude.{
  ℕ, suc, ◌≡◌, refl, ◌↔◌, codes, true, false, none, some, [], ◌∷◌, ◌==◌, list_eq, nat_eq,
  if◌then◌else◌,
}
use keyring.Prelude.Int.{pos}
use keyring.Errors.{failure, sentinel, err_no_avail_impl}
use keyring.Exec.{ok, err}
use keyring.Api.{
  BackendType, Config, file_backend, pass_backend, keychain_backend, win_cred_backend,
  win_hello_backend, secret_service_backend, k_wallet_backend, key_ctl_backend, passage_backend,
}
use keyring.Open.{Supported, Opener, available_of, available_backends, open_loop, open_keyring}
use keyring.Builds.{Build, System, Openers, init_package}
use keyring.Builds.Available.{available_backends-init_package}
use keyring.Open.Selection.{Failed, Opened, open_loop_iff, open_loop_err_iff}
use keyring.Open.Priority.{open_keyring-up_to_file}

-- The state counts the openers that were called.
abbrev opens_file : Opener ℕ BackendType
opens_file cfg n = (ok file_backend, suc n)

abbrev supports : Supported ℕ BackendType
supports b =
    if b == file_backend
    then some opens_file
    else if b == pass_backend
    then some (λ cfg n. (err (failure 1), suc n))
    else none

abbrev pub config : {W : Type 0} → Config W
config = record {
  allowed_backends = none;
  service_name = codes "app";
  keychain_name = [];
  keychain_trust_application = false;
  keychain_synchronizable = false;
  keychain_accessible_when_unlocked = false;
  keychain_password_func = none;
  file_password_func = none;
  file_dir = [];
  key_ctl_scope = codes "user";
  key_ctl_perm = 0;
  k_wallet_app_id = [];
  k_wallet_folder = [];
  lib_secret_collection_name = [];
  pass_dir = [];
  pass_cmd = [];
  pass_prefix = [];
  win_cred_prefix = [];
  use_biometrics = false;
  touch_id_account = [];
  touch_id_service = [];
  op_timeout = pos 0;
  op_vault_id = codes "vault";
  op_item_title_prefix = [];
  op_item_tag = [];
  op_item_field_title = [];
  op_connect_host = [];
  op_connect_token_env = [];
  op_token_env = [];
  op_token_func = none;
  op_desktop_account_id = [];
}

open_keyring_run : open_keyring supports config 0 ≡ (ok file_backend, 2)
unfolding open_keyring open_loop available_backends available_of list_eq nat_eq
open_keyring_run = refl

open_loop_iff_example :
    (open_loop supports config (pass_backend ∷ keychain_backend ∷ file_backend ∷ []) 0
      ≡ (ok file_backend, 2))
    ↔ Opened supports config (pass_backend ∷ keychain_backend ∷ file_backend ∷ []) 0 file_backend 2
open_loop_iff_example =
    open_loop_iff supports config (pass_backend ∷ keychain_backend ∷ file_backend ∷ []) 0 2
      file_backend

open_loop_err_iff_example :
    (open_loop supports config (pass_backend ∷ keychain_backend ∷ []) 0
      ≡ (err (sentinel err_no_avail_impl), 1))
    ↔ ((sentinel err_no_avail_impl ≡ sentinel err_no_avail_impl)
        × Failed supports config (pass_backend ∷ keychain_backend ∷ []) 0 1)
open_loop_err_iff_example =
    open_loop_err_iff supports config (pass_backend ∷ keychain_backend ∷ []) 0 1
      (sentinel err_no_avail_impl)

open_keyring-up_to_file_example :
    open_keyring supports config 0
    ≡ open_loop supports
        (record config { allowed_backends = some (available_backends supports) })
        (win_cred_backend ∷ win_hello_backend ∷ keychain_backend ∷ secret_service_backend
          ∷ k_wallet_backend ∷ key_ctl_backend ∷ pass_backend ∷ passage_backend ∷ file_backend ∷ [])
        0
unfolding list_eq nat_eq
open_keyring-up_to_file_example =
    open_keyring-up_to_file supports opens_file config 0 refl (λ c v. refl) refl

abbrev openers : Openers ℕ BackendType
openers = record {
  secret_service = opens_file;
  keychain = opens_file;
  key_ctl = opens_file;
  k_wallet = opens_file;
  win_cred = opens_file;
  win_hello = opens_file;
  file = opens_file;
  pass = opens_file;
  passage = opens_file;
  op = opens_file;
  op_connect = opens_file;
  op_desktop = opens_file;
}

-- Linux without the 1Password backends, where D-Bus is there and KWallet is turned off.
abbrev build : Build
build = record {
  system = System.linux;
  cgo = true;
  no_file = false;
  no_pass = false;
  no_passage = true;
  no_one_password = true;
}

available_backends-init_package_example :
    available_backends (init_package (λ name n. (codes "1", n)) (λ n. (ok tt, n)) openers build 0).0
    ≡ secret_service_backend ∷ key_ctl_backend ∷ pass_backend ∷ file_backend ∷ []
unfolding list_eq nat_eq
available_backends-init_package_example =
    available_backends-init_package openers build (λ name n. (codes "1", n)) (λ n. (ok tt, n)) 0
      (codes "1") (ok tt) refl refl
