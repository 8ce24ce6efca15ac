-- ===== src/Keychain/Assumed.antt =====
-- What the backends of keychain_macos.go and keychain_ios.go rely on of a keychain.
use mathlib.Core.Option
use keyring.Prelude.{
  ◌≡◌, Bool, Bytes, true, false, Option, none, some, List, [], ◌∷◌, contains, ◌==◌, list_eq, nat_eq,
  is_some, is_empty, if◌then◌else◌,
}
use keyring.Errors.{Error}
use keyring.Exec.{ok, err}
use keyring.Keychain.Library.{Attributes, QueryResult, Library}
use keyring.Keychain.{of_account, one_of_account, all_of_service, accounts_of}

-- What an item shows of attributes with data that were added or passed to an update: the data, and
-- the label and the description that were given. An empty text counts as not given.
pub record Shows (a : Attributes) (r : QueryResult) : Type 0 where
  pub shown_content : some r.content ≡ a.content
  pub shown_label : (t : Bytes) → is_empty t ≡ false → a.label ≡ some t → r.label ≡ t
  pub shown_description :
      (t : Bytes) → is_empty t ≡ false → a.description ≡ some t → r.description ≡ t

abbrev pub results_of : Option Error → Option QueryResult → List QueryResult × Option Error
results_of missing none = ([], missing)
results_of missing (some r) = (r ∷ [], none)

-- In the state `w` the keychain has, of the items that are not synchronized, at most one for each
-- account of the service; queries and deletions that do not speak of synchronization see no others,
-- and nothing is said here of items that are synchronized. An empty service or account would stand
-- for every one. A query for an account with no item has no results, and an error or none; adding
-- an item that is there and deleting one that is not are errors.
pub record IsKeychain {W : Type 0} (library : Library W) (service : Bytes)
    (content : W → Bytes → Option QueryResult) (w : W) : Type 0 where
  pub named : is_empty service ≡ false
  pub missing : Option Error
  pub query_result :
      (key : Bytes)
      → is_empty key ≡ false
      → library.query_item (record (one_of_account service key) { return_data = true }) w
        ≡ (results_of missing (content w key), w)
  pub described : QueryResult → QueryResult
  pub describe_result :
      (key : Bytes)
      → is_empty key ≡ false
      → library.query_item (one_of_account service key) w
        ≡ (results_of missing (Option.map described (content w key)), w)
  -- What is under an account once the attributes are added there or passed to an update.
  pub entry : Bytes → Attributes → QueryResult
  pub entry-Shows :
      (key c : Bytes) (a : Attributes)
      → a.content ≡ some c
      → is_empty c ≡ false
      → Shows a (entry key a)
  pub added : Attributes → W
  pub add_result :
      (key : Bytes) (a : Attributes)
      → is_empty key ≡ false
      → a.service ≡ service
      → a.account ≡ some key
      → a.synchronizable ≡ none
      → content w key ≡ none
      → library.add_item a w ≡ (ok tt, added a)
  pub add_content :
      (key j : Bytes) (a : Attributes)
      → a.account ≡ some key
      → content (added a) j ≡ (if key == j then some (entry key a) else content w j)
  pub duplicate : Error
  pub is_duplicate : library.is_duplicate_item duplicate ≡ true
  pub add_duplicate :
      (key : Bytes) (a : Attributes) (r : QueryResult)
      → is_empty key ≡ false
      → a.service ≡ service
      → a.account ≡ some key
      → a.synchronizable ≡ none
      → content w key ≡ some r
      → library.add_item a w ≡ (err duplicate, w)
  pub updated : Bytes → Attributes → W
  pub update_result :
      (key : Bytes) (a : Attributes) (r : QueryResult)
      → is_empty key ≡ false
      → a.synchronizable ≡ none
      → content w key ≡ some r
      → library.update_item (one_of_account service key) a w ≡ (ok tt, updated key a)
  pub update_content :
      (key j : Bytes) (a : Attributes)
      → content (updated key a) j ≡ (if key == j then some (entry key a) else content w j)
  pub absent : Error
  pub is_absent : library.is_item_not_found absent ≡ true
  pub deleted : Bytes → W
  pub delete_result :
      (key : Bytes) (r : QueryResult)
      → is_empty key ≡ false
      → content w key ≡ some r
      → library.delete_item (of_account service key) w ≡ (ok tt, deleted key)
  pub delete_absent :
      (key : Bytes)
      → is_empty key ≡ false
      → content w key ≡ none
      → library.delete_item (of_account service key) w ≡ (err absent, w)
  pub delete_content :
      (key j : Bytes) → content (deleted key) j ≡ (if key == j then none else content w j)
  pub entries : List QueryResult
  pub list_result : library.query_item (all_of_service service) w ≡ ((entries, none), w)
  pub list_complete :
      (j : Bytes) → is_empty j ≡ false → contains (accounts_of entries) j ≡ is_some (content w j)

-- Items that are to be synchronized are kept apart from the others: `synced` tells which accounts of
-- the service have one.
pub record IsSynchronizing {W : Type 0} (library : Library W) (service : Bytes)
    (content : W → Bytes → Option QueryResult) (synced : W → Bytes → Bool) (w : W) : Type 0 where
  pub joined : Attributes → W
  pub join_result :
      (key : Bytes) (a : Attributes)
      → is_empty key ≡ false
      → a.service ≡ service
      → a.account ≡ some key
      → a.synchronizable ≡ some true
      → synced w key ≡ false
      → library.add_item a w ≡ (ok tt, joined a)
  pub join_synced :
      (key : Bytes) (a : Attributes) → a.account ≡ some key → synced (joined a) key ≡ true
  pub join_content : (a : Attributes) (j : Bytes) → content (joined a) j ≡ content w j
  pub taken : Error
  pub is_taken : library.is_duplicate_item taken ≡ true
  pub join_taken :
      (key : Bytes) (a : Attributes)
      → is_empty key ≡ false
      → a.service ≡ service
      → a.account ≡ some key
      → a.synchronizable ≡ some true
      → synced w key ≡ true
      → library.add_item a w ≡ (err taken, w)
