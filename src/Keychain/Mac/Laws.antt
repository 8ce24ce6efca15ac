-- ===== src/Keychain/Mac/Laws.antt =====
-- The default keychain of macOS (keychain_macos.go) and what it keeps.
use mathlib.Core.Option
use keyring.Prelude.{
  ◌≡◌, refl, ap, Bytes, Bool, true, false, not, ◌&&◌, Option, Option-cases, inl, inr, none, some,
  List, arith, ◌==◌, list_eq, nat_eq, is_some, is_empty, if◌then◌else◌,
}
use keyring.Errors.{sentinel, err_key_not_found}
use keyring.Exec.{Result, ok, err, found}
use keyring.Exec.Object.{Object}
use keyring.Api.{Item}
use keyring.Keychain.Library.{Attributes, QueryResult, Library}
use keyring.Keychain.{item_of, first_result, accounts_of}
use keyring.Keychain.Assumed.{IsKeychain, Shows}
use keyring.Keychain.Keeping.{KeepsItem, KeepsEntries, KeepsItem-of_entries}
use keyring.Keychain.Opening.{MacKeychain}
use keyring.Keychain.Mac.{
  own_path, get, set, remove, keys, to_update, update_item, own_keychain, item_attributes,
  unless_duplicate, not_found, no_keychain, existing, listed, keys_in, mac_ring,
}

module _ {W : Type 0} (library : Library W) (k : MacKeychain W)
    (content : W → Bytes → Option QueryResult)
    (keychain : (w : W) → IsKeychain library k.service content w)
    (no_path : is_empty k.path ≡ true) where
  abbrev State : Type 0
  State = Object Bool W

  get_run :
      (key : Bytes) (w : W)
      → is_empty key ≡ false
      → get library k key w ≡ (found (Option.map (item_of key) (content w key)), w)
  unfolding get first_result own_path
  get_run key w full = elim (Option-cases (content w key)) [
    | inl e ↦ rw (no_path, (keychain w).query_result key full, e) refl
    | inr (r, e) ↦ rw (no_path, (keychain w).query_result key full, e) refl
  ]

  abbrev attributes : Item → Attributes
  attributes i = item_attributes library k none i

  -- What an update passes on.
  abbrev without_access : Item → Attributes
  without_access i = record (attributes i) { access = none }

  -- The item is not asked to be synchronized.
  abbrev pub StaysHere : Item → Type 0
  StaysHere i = (k.is_synchronizable && not i.keychain_not_synchronizable) ≡ false

  -- `Set` leaves the item under its key, whether or not there was one.
  set_run :
      (i : Item) (o : State)
      → is_empty i.key ≡ false
      → is_empty i.content ≡ false
      → StaysHere i
      → (r : QueryResult) × Shows (attributes i) r
        × (((set library k i o).0 ≡ ok tt)
            × ((j : Bytes)
                → content (set library k i o).1.world j
                  ≡ (if i.key == j then some r else content o.world j)))
  unfolding set own_keychain unless_duplicate update_item to_update item_attributes
  set_run i o full has_data here =
      let c = keychain o.world in
      let a = attributes i in
      let local : a.synchronizable ≡ none = rw here refl in
      let shows = c.entry-Shows i.key i.content (without_access i) refl has_data in
      elim (Option-cases (content o.world i.key)) [
        | inl e ↦ (
          c.entry i.key a,
          c.entry-Shows i.key i.content a refl has_data,
          rw (no_path, c.add_result i.key a full refl refl local e)
              (refl, λ j. c.add_content i.key j a refl),
        )
        | inr (r, e) ↦ (
          c.entry i.key (without_access i),
          record {
            shown_content = shows.shown_content;
            shown_label = shows.shown_label;
            shown_description = shows.shown_description;
          },
          rw
              (
                no_path,
                c.add_duplicate i.key a r full refl refl local e,
                c.is_duplicate,
                c.describe_result i.key full,
                e,
                c.update_result i.key (without_access i) r full local e,
              )
              (refl, λ j. c.update_content i.key j (without_access i)),
        )
      ]

  remove_run :
      (key : Bytes) (o : State)
      → is_empty key ≡ false
      → (((mac_ring library k).remove key o).0
          ≡ (if is_some (content o.world key) then ok tt else err (sentinel err_key_not_found)))
        × ((j : Bytes)
            → content ((mac_ring library k).remove key o).1.world j
              ≡ (if key == j then none else content o.world j))
  unfolding remove not_found no_keychain existing
  remove_run key o full =
      let c = keychain o.world in
      elim (Option-cases (content o.world key)) [
        | inl e ↦
            rw (no_path, c.delete_absent key full e, e, c.is_absent) (refl, λ j. ground (arith, e))
        | inr (r, e) ↦ rw (no_path, c.delete_result key r full e, e) (refl, c.delete_content key)
      ]

  keys_run : (w : W) → keys library k w ≡ (ok (accounts_of (keychain w).entries), w)
  unfolding keys keys_in existing listed
  keys_run w = rw (no_path, (keychain w).list_result) refl

  entries_run : (o : State) → KeepsEntries (mac_ring library k) (λ (v : State). content v.world) o
  entries_run o = record {
    get_entry = λ key full. ap (λ (x : Result Item × W). x.0) (get_run key o.world full);
    remove_entry = λ key full. remove_run key o full;
    listed = accounts_of (keychain o.world).entries;
    list_entries = ap (λ (x : Result (List Bytes) × W). x.0) (keys_run o.world);
    list_complete = (keychain o.world).list_complete;
  }

  -- The default keychain of macOS, from every state of Touch ID, where no path is configured. Over a
  -- keychain with at most one item for each account of the service, for an item that is not to be
  -- synchronized and whose key and data are not empty: `Set` succeeds, whether it adds the item or
  -- updates one that is there. `Get` then returns its key and data, and its label and description
  -- where they are not empty, and `Keys` lists the key. `Remove` succeeds, and once more is
  -- `ErrKeyNotFound`, as is `Get`. Of any other key that is not empty `Get` returns all the time
  -- what it returned before.
  pub mac_ring-KeepsItem :
      (i : Item) (j : Bytes) (o : State)
      → is_empty i.key ≡ false
      → is_empty i.content ≡ false
      → StaysHere i
      → is_empty j ≡ false
      → (i.key == j) ≡ false
      → KeepsItem (mac_ring library k) i j o
  unfolding item_attributes
  mac_ring-KeepsItem i j o full has_data here full_j other =
      let (r, shows, (done, left)) = set_run i o full has_data here in
      KeepsItem-of_entries (mac_ring library k) (λ (v : State). content v.world) entries_run i j o
        (attributes i) r full full_j other refl refl refl shows done left
