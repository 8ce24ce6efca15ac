-- ===== src/Keychain/Ios.antt =====
-- keychain_ios.go: the keychain of iOS.
pub mod Laws
pub mod Synchronized
use keyring.Prelude.{Bytes, Bool, true, not, ◌&&◌, Option, none, some, List, [], ◌∷◌, if◌then◌else◌}
use keyring.Errors.{Error, sentinel, message, err_key_not_found}
use keyring.Exec.{Exec, Result, ok, err, pure, raise, lift, attempt, on_error, ◌>>=◌, ◌>>◌}
use keyring.Api.{Item, Metadata, Keyring, Config, Prompt}
use keyring.Keychain.Library.{Attributes, QueryResult, Library}
use keyring.Keychain.{
  of_account, one_of_account, all_of_service, item_of, metadata_of, first_result, accounts_of,
}

pub record IosKeychain (W : Type 0) : Type 0 where
  pub service : Bytes
  pub password_func : Option (Prompt W)
  pub is_synchronizable : Bool
  pub is_accessible_when_unlocked : Bool

pub new_ios_keychain : {W : Type 0} → Config W → IosKeychain W
new_ios_keychain cfg = record {
  service = cfg.service_name;
  password_func = cfg.keychain_password_func;
  is_synchronizable = cfg.keychain_synchronizable;
  is_accessible_when_unlocked = cfg.keychain_accessible_when_unlocked;
}

module _ {W : Type 0} (library : Library W) (k : IosKeychain W) where
  pub get : Bytes → Exec W Item
  unfolding first_result one_of_account
  get key w =
      let ((results, e), w₁) =
        library.query_item (record (one_of_account k.service key) { return_data = true }) w in
      (do r ← lift (first_result library.is_item_not_found results e); pure (item_of key r)) w₁

  pub get_metadata : Bytes → Exec W Metadata
  unfolding first_result one_of_account
  get_metadata key w =
      let ((results, e), w₁) =
        library.query_item (record (one_of_account k.service key) { return_ref = true }) w in
      (do r ← lift (first_result library.is_item_not_found results e); pure (metadata_of key r)) w₁

  -- The results and the error of the query in front of an update.
  to_update : List QueryResult → Option Error → Result (Unit {0})
  to_update results (some e) = err (message "failed to query keychain: %v")
  to_update [] none = err (message "no results")
  to_update (r ∷ results) none = ok tt

  update_item : Attributes → Bytes → Exec W Unit
  unfolding to_update one_of_account
  update_item kc_item account w =
      let query = one_of_account k.service account in
      let ((results, e), w₁) = library.query_item query w in
      (do
        lift (to_update results e)
        on_error (λ e. message "failed to update item in keychain: %v")
            (library.update_item query kc_item))
        w₁

  -- What the setters are called with.
  item_attributes : Item → Attributes
  unfolding of_account
  item_attributes i = record (of_account k.service i.key) {
    label = some i.label;
    description = some i.description;
    content = some i.content;
    synchronizable =
        if k.is_synchronizable && not i.keychain_not_synchronizable then some true else none;
    accessible_when_unlocked = k.is_accessible_when_unlocked;
  }

  -- What becomes of the result of adding the item.
  unless_duplicate : Item → Result (Unit {0}) → Exec W Unit
  unfolding update_item item_attributes
  unless_duplicate i (ok u) = pure tt
  unless_duplicate i (err e) =
      if library.is_duplicate_item e then update_item (item_attributes i) i.key else raise e

  pub set : Item → Exec W Unit
  unfolding unless_duplicate item_attributes
  set i = do r ← attempt (library.add_item (item_attributes i)); unless_duplicate i r

  not_found : Error → Error
  not_found e = if library.is_item_not_found e then sentinel err_key_not_found else e

  pub remove : Bytes → Exec W Unit
  unfolding not_found of_account
  remove key = on_error not_found (library.delete_item (of_account k.service key))

  -- An error comes first here.
  listed : List QueryResult → Option Error → Result (List Bytes)
  unfolding accounts_of
  listed results (some e) = err e
  listed results none = ok (accounts_of results)

  pub keys : Exec W (List Bytes)
  unfolding listed all_of_service
  keys w =
      let ((results, e), w₁) = library.query_item (all_of_service k.service) w in
      (listed results e, w₁)

  abbrev pub ios_ring : Keyring W
  ios_ring = record {
    get = get;
    get_metadata = get_metadata;
    set = set;
    remove = remove;
    keys = keys;
  }
