-- ===== src/Keychain/Mac.antt =====
-- keychain_macos.go: the operations on a keychain of macOS, by default the one that is searched, or
-- one of a given path.
pub mod Laws
use keyring.Prelude.{
  Bytes, Bool, true, not, ◌&&◌, Option, none, some, List, [], ◌∷◌, is_empty, if◌then◌else◌,
}
use keyring.Errors.{Error, sentinel, message, err_key_not_found}
use keyring.Exec.{Exec, Result, ok, err, pure, raise, lift, attempt, on_error, ◌>>=◌, ◌>>◌}
use keyring.Exec.Object.{Object, outside}
use keyring.Api.{Item, Metadata, Keyring}
use keyring.Keychain.Opening.{MacKeychain, create_or_open}
use keyring.Keychain.Library.{Attributes, QueryResult, Library}
use keyring.Keychain.{
  of_account, one_of_account, all_of_service, item_of, metadata_of, first_result, accounts_of,
}

module _ {W : Type 0} (library : Library W) (k : MacKeychain W) where
  abbrev State : Type 0
  State = Object Bool W

  -- The keychain of the path, unless that is empty.
  pub own_path : Option Bytes
  own_path = if is_empty k.path then none else some k.path

  pub get : Bytes → Exec W Item
  unfolding first_result one_of_account own_path
  get key w =
      let ((results, e), w₁) =
        library.query_item
          (record (one_of_account k.service key) {
            return_data = true;
            match_search_list = own_path;
          })
          w in
      (do r ← lift (first_result library.is_item_not_found results e); pure (item_of key r)) w₁

  pub get_metadata : Bytes → Exec W Metadata
  unfolding first_result one_of_account
  get_metadata key w =
      let ((results, e), w₁) =
        library.query_item (record (one_of_account k.service key) { return_ref = true }) w in
      (do r ← lift (first_result library.is_item_not_found results e); pure (metadata_of key r)) w₁

  to_update : List QueryResult → Option Error → Result (Unit {0})
  to_update results (some e) = err (message "failed to query keychain: %v")
  to_update [] none = err (message "no results")
  to_update (r ∷ results) none = ok tt

  -- The item is updated without its access list.
  update_item : Option Bytes → Attributes → Bytes → Exec W Unit
  unfolding to_update one_of_account
  update_item kc kc_item account w =
      let query = record (one_of_account k.service account) { match_search_list = kc } in
      let ((results, e), w₁) = library.query_item query w in
      (do
        lift (to_update results e)
        on_error (λ e. message "failed to update item in keychain: %v")
            (library.update_item query (record kc_item { access = none })))
        w₁

  own_keychain : Exec State (Option Bytes)
  own_keychain =
      if is_empty k.path then pure none else (do kc ← create_or_open library k; pure (some kc))

  -- What the setters are called with.
  item_attributes : Option Bytes → Item → Attributes
  unfolding of_account
  item_attributes kc i = record (of_account k.service i.key) {
    label = some i.label;
    description = some i.description;
    content = some i.content;
    keychain = kc;
    synchronizable =
        if k.is_synchronizable && not i.keychain_not_synchronizable then some true else none;
    accessible_when_unlocked = k.is_accessible_when_unlocked;
    access = some (record {
      label = i.label;
      trusted_applications =
          if k.is_trusted && not i.keychain_not_trust_application then none else some [];
    });
  }

  unless_duplicate : Option Bytes → Item → Result (Unit {0}) → Exec W Unit
  unfolding update_item item_attributes
  unless_duplicate kc i (ok u) = pure tt
  unless_duplicate kc i (err e) =
      if library.is_duplicate_item e then update_item kc (item_attributes kc i) i.key else raise e

  pub set : Item → Exec State Unit
  unfolding own_keychain unless_duplicate item_attributes
  set i = do
    kc ← own_keychain
    r ← attempt (outside (library.add_item (item_attributes kc i)))
    outside (unless_duplicate kc i r)

  not_found : Error → Error
  not_found e = if library.is_item_not_found e then sentinel err_key_not_found else e

  -- The keychain of the path if there is one; `e` is the error where it does not exist.
  existing : Exec W (Option Bytes)
  existing = if is_empty k.path then pure none else (do library.status k.path; pure (some k.path))

  no_keychain : Error → Error
  no_keychain e = if library.is_no_such_keychain e then sentinel err_key_not_found else e

  pub remove : Bytes → Exec W Unit
  unfolding not_found no_keychain existing of_account
  remove key = do
    kc ← on_error no_keychain existing
    on_error not_found
        (library.delete_item (record (of_account k.service key) { match_search_list = kc }))

  listed : List QueryResult → Option Error → Result (List Bytes)
  unfolding accounts_of
  listed results (some e) = err e
  listed results none = ok (accounts_of results)

  keys_in : Result (Option Bytes) → Exec W (List Bytes)
  unfolding listed all_of_service
  keys_in (err e) w = (if library.is_no_such_keychain e then pure [] else raise e) w
  keys_in (ok kc) w =
      let ((results, e), w₁) =
        library.query_item (record (all_of_service k.service) { match_search_list = kc }) w in
      (listed results e, w₁)

  pub keys : Exec W (List Bytes)
  unfolding keys_in existing
  keys = do r ← attempt existing; keys_in r

  abbrev pub mac_ring : Keyring State
  mac_ring = record {
    get = λ key. outside (get key);
    get_metadata = λ key. outside (get_metadata key);
    set = set;
    remove = λ key. outside (remove key);
    keys = outside keys;
  }
