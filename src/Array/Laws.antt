-- ===== src/Array/Laws.antt =====
-- The in-memory keyring (array.go) against the contract of a keyring.
use keyring.Prelude.{
  ◌≡◌, refl, Bytes, Option, none, some, List, [], ◌∷◌, arith, ◌==◌, list_eq, nat_eq, if◌then◌else◌,
}
use keyring.Exec.{ok}
use keyring.Api.{Item}
use keyring.Dict.{Dict, lookup, keys_of, lookup-insert, lookup-erase, contains-keys_of}
use keyring.Contract.{MeetsContract}
use keyring.Array.{
  ArrayKeyring, entries, get, set, remove, erase_items, keys, set_all, new_array_keyring,
  array_ring,
}

abbrev pub view : ArrayKeyring → Bytes → Option Item
view k key = lookup key (entries k.items)

lookup-erase_items :
    (key j : Bytes) (items : Option (Dict Item))
    → lookup j (entries (erase_items key items))
      ≡ (if key == j then none else lookup j (entries items))
unfolding erase_items
lookup-erase_items key j none = unfold lookup in ground arith
lookup-erase_items key j (some d) = lookup-erase key j d

pub array_ring-MeetsContract :
    (k : ArrayKeyring)
    → MeetsContract array_ring (λ _. Unit {0}) view (λ i. i) (λ i. none) (ok tt) k
unfolding get set remove keys
array_ring-MeetsContract k = record {
  get_result = λ key. refl;
  get_good = λ key. tt;
  get_view = λ key j. refl;
  set_result = λ i. refl;
  set_good = λ i. tt;
  set_view = λ i j. lookup-insert i.key j i (entries k.items);
  remove_result = λ key. ground arith;
  remove_good = λ key. tt;
  remove_view = λ key j. lookup-erase_items key j k.items;
  keys_list = keys_of (entries k.items);
  keys_result = refl;
  keys_complete = λ j. contains-keys_of (entries k.items) j;
  keys_sound = λ j h. h;
  keys_good = tt;
  keys_view = λ j. refl;
}

-- The last of the items with a key, if there is one.
abbrev last_with : Bytes → List Item → Option Item → Option Item
last_with key [] other = other
last_with key (i ∷ items) other = last_with key items (if i.key == key then some i else other)

view-set_all :
    (items : List Item) (k : ArrayKeyring) (key : Bytes)
    → view (set_all items k) key ≡ last_with key items (view k key)
unfolding set_all set
view-set_all [] k key = refl
view-set_all (i ∷ items) k key = rw (view-set_all items (set i k).1 key) (rw lookup-insert refl)

-- A new keyring holds, under each key, the last of the initial items with that key.
view-new_array_keyring :
    (initial : List Item) (key : Bytes)
    → view (new_array_keyring initial) key ≡ last_with key initial none
unfolding new_array_keyring lookup
view-new_array_keyring initial key = view-set_all initial (record { items = none }) key
