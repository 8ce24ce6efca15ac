-- ===== src/Keychain/Ios/Laws.antt =====
-- The keychain of iOS (keychain_ios.go) and what it keeps.
use mathlib.Core.Option
use keyring.Prelude.{
  ◌≡◌, refl, ap, Bytes, false, not, ◌&&◌, Option, Option-cases, inl, inr, none, some, List, arith,
  ◌==◌, list_eq, nat_eq, is_some, is_empty, if◌then◌else◌,
}
use keyring.Errors.{sentinel, err_key_not_found}
use keyring.Exec.{Result, ok, err, found}
use keyring.Api.{Item}
use keyring.Keychain.Library.{Attributes, QueryResult, Library}
use keyring.Keychain.{item_of, first_result, accounts_of}
use keyring.Keychain.Assumed.{IsKeychain, Shows}
use keyring.Keychain.Keeping.{KeepsItem, KeepsEntries, KeepsItem-of_entries}
use keyring.Keychain.Ios.{
  IosKeychain, get, set, remove, keys, to_update, update_item, item_attributes, unless_duplicate,
  not_found, listed, ios_ring,
}

module _ {W : Type 0} (library : Library W) (k : IosKeychain W)
    (content : W → Bytes → Option QueryResult)
    (keychain : (w : W) → IsKeychain library k.service content w) where
  pub get_run :
      (key : Bytes) (w : W)
      → is_empty key ≡ false
      → get library k key w ≡ (found (Option.map (item_of key) (content w key)), w)
  unfolding get first_result
  get_run key w full = elim (Option-cases (content w key)) [
    | inl e ↦ rw ((keychain w).query_result key full, e) refl
    | inr (r, e) ↦ rw ((keychain w).query_result key full, e) refl
  ]

  abbrev attributes : Item → Attributes
  attributes i = item_attributes library k i

  -- The item is not asked to be synchronized.
  abbrev pub StaysHere : Item → Type 0
  StaysHere i = (k.is_synchronizable && not i.keychain_not_synchronizable) ≡ false

  -- `Set` leaves the item under its key, whether or not there was one.
  set_run :
      (i : Item) (w : W)
      → is_empty i.key ≡ false
      → is_empty i.content ≡ false
      → StaysHere i
      → (r : QueryResult) × Shows (attributes i) r
        × (((set library k i w).0 ≡ ok tt)
            × ((j : Bytes)
                → content (set library k i w).1 j ≡ (if i.key == j then some r else content w j)))
  unfolding set unless_duplicate update_item to_update item_attributes
  set_run i w full has_data here =
      let c = keychain w in
      let a = attributes i in
      let local : a.synchronizable ≡ none = rw here refl in
      elim (Option-cases (content w i.key)) [
        | inl e ↦ (
          c.entry i.key a,
          c.entry-Shows i.key i.content a refl has_data,
          rw (c.add_result i.key a full refl refl local e)
              (refl, λ j. c.add_content i.key j a refl),
        )
        | inr (r, e) ↦ (
          c.entry i.key a,
          c.entry-Shows i.key i.content a refl has_data,
          rw
              (
                c.add_duplicate i.key a r full refl refl local e,
                c.is_duplicate,
                c.describe_result i.key full,
                e,
                c.update_result i.key a r full local e,
              )
              (refl, λ j. c.update_content i.key j a),
        )
      ]

  pub remove_run :
      (key : Bytes) (w : W)
      → is_empty key ≡ false
      → ((remove library k key w).0
          ≡ (if is_some (content w key) then ok tt else err (sentinel err_key_not_found)))
        × ((j : Bytes)
            → content (remove library k key w).1 j ≡ (if key == j then none else content w j))
  unfolding remove not_found
  remove_run key w full =
      let c = keychain w in
      elim (Option-cases (content w key)) [
        | inl e ↦ rw (c.delete_absent key full e, e, c.is_absent) (refl, λ j. ground (arith, e))
        | inr (r, e) ↦ rw (c.delete_result key r full e, e) (refl, c.delete_content key)
      ]

  pub keys_run : (w : W) → keys library k w ≡ (ok (accounts_of (keychain w).entries), w)
  unfolding keys listed
  keys_run w = rw ((keychain w).list_result) refl

  entries_run : (w : W) → KeepsEntries (ios_ring library k) content w
  entries_run w = record {
    get_entry = λ key full. ap (λ (x : Result Item × W). x.0) (get_run key w full);
    remove_entry = λ key full. remove_run key w full;
    listed = accounts_of (keychain w).entries;
    list_entries = ap (λ (x : Result (List Bytes) × W). x.0) (keys_run w);
    list_complete = (keychain w).list_complete;
  }

  -- Over a keychain with at most one item for each account of the service, for an item that is not
  -- to be synchronized and whose key and data are not empty: `Set` succeeds, whether it adds the
  -- item or updates one that is there. `Get` then returns its key and data, and its label and
  -- description where they are not empty, and `Keys` lists the key. `Remove` succeeds, and once
  -- more is `ErrKeyNotFound`, as is `Get`. Of any other key that is not empty `Get` returns all the
  -- time what it returned before.
  pub ios_ring-KeepsItem :
      (i : Item) (j : Bytes) (w : W)
      → is_empty i.key ≡ false
      → is_empty i.content ≡ false
      → StaysHere i
      → is_empty j ≡ false
      → (i.key == j) ≡ false
      → KeepsItem (ios_ring library k) i j w
  unfolding item_attributes
  ios_ring-KeepsItem i j w full has_data here full_j other =
      let (r, shows, (done, left)) = set_run i w full has_data here in
      KeepsItem-of_entries (ios_ring library k) content entries_run i j w (attributes i) r full
        full_j other refl refl refl shows done left
