-- ===== src/Keychain.antt =====
-- keychain_macos.go and keychain_ios.go: items in a keychain of the system.
pub mod Library
pub mod Assumed
pub mod Keeping
pub mod Ios
pub mod Opening
pub mod Mac
use keyring.Prelude.{Bytes, Bool, true, false, Option, none, some, List, [], ◌∷◌, if◌then◌else◌}
use keyring.Errors.{Error, sentinel, err_key_not_found}
use keyring.Exec.{Result, ok, err}
use keyring.Api.{Item, Metadata}
use keyring.Keychain.Library.{Attributes, QueryResult, one, all}

-- `gokeychain.NewItem()`, with the class of generic passwords, and a service.
unfoldable pub of_service : Bytes → Attributes
of_service service = record {
  service = service;
  account = none;
  label = none;
  description = none;
  content = none;
  match_limit = none;
  return_attributes = false;
  return_data = false;
  return_ref = false;
  match_search_list = none;
  keychain = none;
  synchronizable = none;
  accessible_when_unlocked = false;
  access = none;
}

-- One item of an account; the queries of both files start with it.
unfoldable pub of_account : Bytes → Bytes → Attributes
unfolding of_service
of_account service key = record (of_service service) { account = some key }

unfoldable pub one_of_account : Bytes → Bytes → Attributes
unfolding of_account
one_of_account service key = record (of_account service key) {
  match_limit = some one;
  return_attributes = true;
}

unfoldable pub all_of_service : Bytes → Attributes
unfolding of_service
all_of_service service = record (of_service service) {
  match_limit = some all;
  return_attributes = true;
}

abbrev pub item_of : Bytes → QueryResult → Item
item_of key r = record {
  key = key;
  content = r.content;
  label = r.label;
  description = r.description;
  keychain_not_trust_application = false;
  keychain_not_synchronizable = false;
}

abbrev pub metadata_of : Bytes → QueryResult → Metadata
metadata_of key r = record {
  item = some (record {
    key = key;
    content = [];
    label = r.label;
    description = r.description;
    keychain_not_trust_application = false;
    keychain_not_synchronizable = false;
  });
  modification_time = r.modification_date;
}

-- `err == gokeychain.ErrorItemNotFound || len(results) == 0` comes before the look at the error.
pub first_result : (Error → Bool) → List QueryResult → Option Error → Result QueryResult
first_result is_item_not_found [] e = err (sentinel err_key_not_found)
first_result is_item_not_found (r ∷ results) none = ok r
first_result is_item_not_found (r ∷ results) (some e) =
    if is_item_not_found e then err (sentinel err_key_not_found) else err e

unfoldable pub accounts_of : List QueryResult → List Bytes
accounts_of [] = []
accounts_of (r ∷ results) = r.account ∷ accounts_of results
