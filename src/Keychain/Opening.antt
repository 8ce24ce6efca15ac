-- ===== src/Keychain/Opening.antt =====
-- keychain_macos.go: the keyring and its configuration, and how the keychain of a given path is
-- opened or created, perhaps by Touch ID.
pub mod TouchId
use keyring.Prelude.{
  Bytes, codes, Bool, true, false, not, ◌&&◌, Option, none, some, List, [], ◌∷◌, ◌++◌, is_empty,
  if◌then◌else◌,
}
use keyring.Errors.{Error, message, wrapf}
use keyring.Exec.{Exec, Result, ok, err, pure, raise, attempt, on_error, ◌>>=◌, ◌>>◌}
use keyring.Exec.Object.{Object, outside, get_fields, put_fields}
use keyring.Api.{Config, Prompt}
use keyring.Keychain.Library.{QueryResult, Library, one}
use keyring.Keychain.{of_account}

-- The fields that no method changes; `isTouchIDAuthenticated` stands beside the world.
pub record MacKeychain (W : Type 0) : Type 0 where
  pub path : Bytes
  pub service : Bytes
  pub password_func : Option (Prompt W)
  pub is_synchronizable : Bool
  pub is_accessible_when_unlocked : Bool
  pub is_trusted : Bool
  pub use_touch_id : Bool
  pub touch_id_account : Bytes
  pub touch_id_service : Bytes

-- The opener.
pub new_mac_keychain : {W : Type 0} → Config W → Result (MacKeychain W)
new_mac_keychain cfg =
    if cfg.use_biometrics && is_empty cfg.touch_id_account
    then err (message "TouchIDAccount must be non-empty if UseBiometrics is true")
    else if cfg.use_biometrics && is_empty cfg.touch_id_service
    then err (message "TouchIDService must be non-empty if UseBiometrics is true")
    else ok (record {
      path = if is_empty cfg.keychain_name then [] else cfg.keychain_name ++ codes ".keychain";
      service = cfg.service_name;
      password_func = cfg.keychain_password_func;
      is_synchronizable = cfg.keychain_synchronizable;
      is_accessible_when_unlocked = cfg.keychain_accessible_when_unlocked;
      is_trusted = cfg.keychain_trust_application;
      use_touch_id = cfg.use_biometrics;
      touch_id_account = if cfg.use_biometrics then cfg.touch_id_account else [];
      touch_id_service = if cfg.use_biometrics then cfg.touch_id_service else [];
    })

module _ {W : Type 0} (library : Library W) (k : MacKeychain W) where
  abbrev pub State : Type 0
  State = Object Bool W

  read_passphrase : Option (Prompt W) → Exec W Bytes
  read_passphrase none = on_error (λ e. message "failed to read password: %v") library.read_password
  read_passphrase (some func) =
      on_error (λ e. message "failed to get password: %v")
        (func (codes "Enter passphrase for " ++ library.quoted k.path))

  -- `SetLabel` of "Passphrase for %s".
  touch_id_label : Bytes
  touch_id_label = codes "Passphrase for " ++ k.path

  pub setup_touch_id : Exec W Bytes
  unfolding read_passphrase touch_id_label of_account
  setup_touch_id = do
    passphrase ← read_passphrase k.password_func
    on_error (λ e. message "failed to lock keychain: %v") (library.lock_at_path k.path)
    on_error (λ e. message "failed to unlock keychain: %v")
        (library.unlock_at_path k.path passphrase)
    on_error (λ e. message "failed to add item to keychain: %v")
        (library.add_item (record (of_account k.touch_id_service k.touch_id_account) {
          label = some touch_id_label;
          content = some passphrase;
          synchronizable = some false;
          accessible_when_unlocked = true;
        }))
    pure passphrase

  -- Unlocking with what the query in the login keychain found.
  unlock_with : List QueryResult → Exec W Unit
  unfolding setup_touch_id
  unlock_with (r ∷ []) =
      on_error (λ e. message "failed to unlock keychain: %v")
        (library.unlock_at_path k.path r.content)
  unlock_with results = do
    passphrase ← on_error (λ e. message "failed to setup touchid: %v") setup_touch_id
    pure tt

  unless_query_failed : List QueryResult → Option Error → Result (List QueryResult)
  unless_query_failed results (some e) = err (message "failed to query keychain: %v")
  unless_query_failed results none = ok results

  stored_passphrases : Exec W (List QueryResult)
  unfolding touch_id_label of_account unless_query_failed
  stored_passphrases w =
      let ((results, e), w₁) =
        library.query_item
          (record (of_account k.touch_id_service k.touch_id_account) {
            label = some touch_id_label;
            match_limit = some one;
            return_data = true;
          })
          w in
      (unless_query_failed results e, w₁)

  authenticated : Bool → Exec State Bytes
  unfolding unlock_with stored_passphrases
  authenticated true = pure k.path
  authenticated false = do
    outside (
        on_error (wrapf "failed to authenticate with biometrics: %w")
          (library.authenticate (codes "unlock " ++ k.path)))
    put_fields true
    results ← outside stored_passphrases
    outside (unlock_with results)
    pure k.path

  pub open_with_touch_id : Exec State Bytes
  unfolding authenticated
  open_with_touch_id = do is_authenticated ← get_fields; authenticated is_authenticated

  create_keychain : Option (Prompt W) → Exec W Bytes
  create_keychain none = do library.new_keychain_with_prompt k.path; pure k.path
  create_keychain (some func) = do
    passphrase ← func (codes "Enter passphrase for keychain")
    library.new_keychain k.path passphrase
    pure k.path

  -- What becomes of the status.
  opened : Result (Unit {0}) → Exec State Bytes
  unfolding open_with_touch_id create_keychain
  opened (ok u) = if k.use_touch_id then open_with_touch_id else pure k.path
  opened (err e) =
      if not (library.is_no_such_keychain e)
      then raise e
      else outside (create_keychain k.password_func)

  pub create_or_open : Exec State Bytes
  unfolding opened
  create_or_open = do r ← attempt (outside (library.status k.path)); opened r
