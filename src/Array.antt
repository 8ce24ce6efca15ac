-- ===== src/Array.antt =====
-- array.go: the keyring in memory.
pub mod Laws
use keyring.Prelude.{Bytes, Option, none, some, List, [], ◌∷◌}
use keyring.Errors.{sentinel, err_metadata_needs_credentials}
use keyring.Exec.{Exec, ok, found, raise}
use keyring.Api.{Item, Metadata, Keyring}
use keyring.Dict.{Dict, lookup, insert, erase, keys_of}

-- The map is nil until the first `Set`.
pub record ArrayKeyring : Type 0 where
  pub items : Option (Dict Item)

-- What a nil map shows: reading and ranging over it find nothing.
abbrev pub entries : Option (Dict Item) → Dict Item
entries none = []
entries (some d) = d

pub get : Bytes → Exec ArrayKeyring Item
unfolding lookup
get key k = (found (lookup key (entries k.items)), k)

pub set : Item → Exec ArrayKeyring Unit
unfolding insert
set i k = (ok tt, record k { items = some (insert i.key i (entries k.items)) })

-- Deleting from a nil map does nothing.
erase_items : Bytes → Option (Dict Item) → Option (Dict Item)
erase_items key none = none
erase_items key (some d) = some (erase key d)

pub remove : Bytes → Exec ArrayKeyring Unit
unfolding erase_items erase
remove key k = (ok tt, record k { items = erase_items key k.items })

pub keys : Exec ArrayKeyring (List Bytes)
unfolding keys_of
keys k = (ok (keys_of (entries k.items)), k)

pub get_metadata : Bytes → Exec ArrayKeyring Metadata
get_metadata key = raise (sentinel err_metadata_needs_credentials)

set_all : List Item → ArrayKeyring → ArrayKeyring
set_all [] k = k
set_all (i ∷ initial) k = set_all initial (set i k).1

pub new_array_keyring : List Item → ArrayKeyring
unfolding set_all set
new_array_keyring initial = set_all initial (record { items = none })

abbrev pub array_ring : Keyring ArrayKeyring
array_ring = record {
  get = get;
  get_metadata = get_metadata;
  set = set;
  remove = remove;
  keys = keys;
}
