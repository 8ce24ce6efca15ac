-- ===== src/Keychain/Keeping.antt =====
-- How a keyring over a keychain (keychain_ios.go, keychain_macos.go) keeps an item.
use mathlib.Core.Option
use keyring.Prelude.{
  ◌≡◌, refl, sym, ap, ◌∙◌, Bytes, true, false, Option, none, some, List, contains, arith, ◌==◌,
  ==_refl, list_eq, nat_eq, is_some, is_empty, if◌then◌else◌,
}
use keyring.Errors.{sentinel, err_key_not_found}
use keyring.Exec.{ok, err, found}
use keyring.Api.{Item, Keyring}
use keyring.Keychain.{item_of}
use keyring.Keychain.Library.{Attributes, QueryResult}
use keyring.Keychain.Assumed.{Shows}

-- `Set` of an item and then `Remove` of it, with `Get` and `Keys` behind each, next to another key.
-- A label or a description that is not empty is kept.
pub record KeepsItem {S : Type 0} (ring : Keyring S) (i : Item) (j : Bytes) (s : S) : Type 0 where
  pub set_result : (ring.set i s).0 ≡ ok tt
  pub kept : Item
  pub get_result : (ring.get i.key (ring.set i s).1).0 ≡ ok kept
  pub kept_key : kept.key ≡ i.key
  pub kept_content : kept.content ≡ i.content
  pub kept_label : is_empty i.label ≡ false → kept.label ≡ i.label
  pub kept_description : is_empty i.description ≡ false → kept.description ≡ i.description
  pub get_other : (ring.get j (ring.set i s).1).0 ≡ (ring.get j s).0
  pub names : List Bytes
  pub keys_result : (ring.keys (ring.set i s).1).0 ≡ ok names
  pub lists_key : contains names i.key ≡ true
  pub remove_result : (ring.remove i.key (ring.set i s).1).0 ≡ ok tt
  pub get_removed :
      (ring.get i.key (ring.remove i.key (ring.set i s).1).1).0 ≡ err (sentinel err_key_not_found)
  pub get_other_removed : (ring.get j (ring.remove i.key (ring.set i s).1).1).0 ≡ (ring.get j s).0
  pub remove_again :
      (ring.remove i.key (ring.remove i.key (ring.set i s).1).1).0
      ≡ err (sentinel err_key_not_found)

-- What the operations do to the entries of the keychain.
pub record KeepsEntries {S : Type 0} (ring : Keyring S) (content : S → Bytes → Option QueryResult)
    (s : S) : Type 0 where
  pub get_entry :
      (key : Bytes)
      → is_empty key ≡ false
      → (ring.get key s).0 ≡ found (Option.map (item_of key) (content s key))
  pub remove_entry :
      (key : Bytes)
      → is_empty key ≡ false
      → ((ring.remove key s).0
          ≡ (if is_some (content s key) then ok tt else err (sentinel err_key_not_found)))
        × ((j : Bytes) → content (ring.remove key s).1 j ≡ (if key == j then none else content s j))
  pub listed : List Bytes
  pub list_entries : (ring.keys s).0 ≡ ok listed
  pub list_complete : (j : Bytes) → is_empty j ≡ false → contains listed j ≡ is_some (content s j)

module _ {S : Type 0} (ring : Keyring S) (content : S → Bytes → Option QueryResult)
    (does : (s : S) → KeepsEntries ring content s) where
  pub KeepsItem-of_entries :
      (i : Item) (j : Bytes) (s : S) (a : Attributes) (r : QueryResult)
      → is_empty i.key ≡ false
      → is_empty j ≡ false
      → (i.key == j) ≡ false
      → a.content ≡ some i.content
      → a.label ≡ some i.label
      → a.description ≡ some i.description
      → Shows a r
      → (ring.set i s).0 ≡ ok tt
      → ((l : Bytes) → content (ring.set i s).1 l ≡ (if i.key == l then some r else content s l))
      → KeepsItem ring i j s
  KeepsItem-of_entries i j s a r full full_j other c l d shows done left =
      let s₁ = (ring.set i s).1 in
      let s₂ = (ring.remove i.key s₁).1 in
      let dropped = (does s₁).remove_entry i.key full in
      let here₁ : content s₁ i.key ≡ some r = left i.key ∙ rw (==_refl i.key) refl in
      let there₁ : content s₁ j ≡ content s j = left j ∙ rw other refl in
      let here₂ : content s₂ i.key ≡ none = dropped.1 i.key ∙ rw (==_refl i.key) refl in
      let there₂ : content s₂ j ≡ content s j = dropped.1 j ∙ rw other there₁ in
      let shown = λ (o : Option QueryResult). found (Option.map (item_of j) o) in
      let before = (does s).get_entry j full_j in
      record {
        set_result = done;
        kept = item_of i.key r;
        get_result = (does s₁).get_entry i.key full ∙ rw here₁ refl;
        kept_key = refl;
        kept_content = ground (arith, shows.shown_content, c);
        kept_label = λ h. shows.shown_label i.label h l;
        kept_description = λ h. shows.shown_description i.description h d;
        get_other = (does s₁).get_entry j full_j ∙ ap shown there₁ ∙ sym before;
        names = (does s₁).listed;
        keys_result = (does s₁).list_entries;
        lists_key = (does s₁).list_complete i.key full ∙ rw here₁ refl;
        remove_result = dropped.0 ∙ rw here₁ refl;
        get_removed = (does s₂).get_entry i.key full ∙ rw here₂ refl;
        get_other_removed = (does s₂).get_entry j full_j ∙ ap shown there₂ ∙ sym before;
        remove_again = ((does s₂).remove_entry i.key full).0 ∙ rw here₂ refl;
      }
