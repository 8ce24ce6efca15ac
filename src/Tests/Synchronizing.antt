-- ===== src/Tests/Synchronizing.antt =====
-- The keychain in memory, with the accounts that have an item elsewhere.
use keyring.Prelude.{
  ◌≡◌, refl, ap, ◌∙◌, Bytes, codes, Bool, true, false, Option, none, some, List, [], ◌∷◌, contains,
  arith, list_eq, nat_eq, ==_refl, if◌then◌else◌,
}
use keyring.Errors.{sentinel, err_key_not_found}
use keyring.Exec.{Exec, ok, err, is_ok}
use keyring.Dict.{lookup}
use keyring.Keychain.Library.{Attributes, QueryResult, Library}
use keyring.Keychain.Assumed.{IsKeychain, IsSynchronizing}
use keyring.Keychain.Ios.{IosKeychain, get, set, remove, keys}
use keyring.Keychain.Ios.Synchronized.{set_synchronized}
use keyring.Tests.Keychains
use keyring.Tests.Keychains.{Store, duplicate, library-IsKeychain, x}

abbrev World : Type 0
World = Store × List Bytes

here : {A : Type 0} → Exec Store A → Exec World A
here m w = let (r, s) = m w.0 in (r, (s, w.1))

join : Option Bytes → Exec World Unit
join none w = (ok tt, w)
join (some key) w = if contains w.1 key then (err duplicate, w) else (ok tt, (w.0, key ∷ w.1))

add : Option Bool → Attributes → Exec World Unit
unfolding here join
add none a w = here (Keychains.library.add_item a) w
add (some synchronizable) a w = join a.account w

abbrev library : Library World
library = record {
  query_item = λ a w. let (r, s) = Keychains.library.query_item a w.0 in (r, (s, w.1));
  add_item = λ a w. add a.synchronizable a w;
  update_item = λ q a w. here (Keychains.library.update_item q a) w;
  delete_item = λ a w. here (Keychains.library.delete_item a) w;
  status = λ p w. (ok tt, w);
  new_keychain = λ p s w. (ok tt, w);
  new_keychain_with_prompt = λ p w. (ok tt, w);
  lock_at_path = λ p w. (ok tt, w);
  unlock_at_path = λ p s w. (ok tt, w);
  is_item_not_found = λ e. true;
  is_duplicate_item = λ e. true;
  is_no_such_keychain = λ e. false;
  quoted = λ s. s;
  authenticate = λ reason w. (ok tt, w);
  read_password = λ w. (ok [], w);
}

abbrev content : World → Bytes → Option QueryResult
content w key = Keychains.content w.0 key

abbrev synced : World → Bytes → Bool
synced w key = contains w.1 key

abbrev beside : {A : Type 0} → List Bytes → A × Store → A × World
beside cloud x = (x.0, (x.1, cloud))

library-Is : (w : World) → IsKeychain library (codes "app") content w
unfolding here add
library-Is w =
    let local = library-IsKeychain w.0 in
    record {
      named = local.named;
      missing = local.missing;
      query_result = λ key full. ap (beside w.1) (local.query_result key full);
      described = local.described;
      describe_result = λ key full. ap (beside w.1) (local.describe_result key full);
      entry = local.entry;
      entry-Shows = local.entry-Shows;
      added = λ a. (local.added a, w.1);
      add_result = λ key a full s h n e.
          ap (λ s. add s a w) n ∙ ap (beside w.1) (local.add_result key a full s h n e);
      add_content = local.add_content;
      duplicate = local.duplicate;
      is_duplicate = refl;
      add_duplicate = λ key a r full s h n e.
          ap (λ s. add s a w) n ∙ ap (beside w.1) (local.add_duplicate key a r full s h n e);
      updated = λ key a. (local.updated key a, w.1);
      update_result = λ key a r full n e. ap (beside w.1) (local.update_result key a r full n e);
      update_content = local.update_content;
      absent = local.absent;
      is_absent = refl;
      deleted = λ key. (local.deleted key, w.1);
      delete_result = λ key r full e. ap (beside w.1) (local.delete_result key r full e);
      delete_absent = λ key full e. ap (beside w.1) (local.delete_absent key full e);
      delete_content = local.delete_content;
      entries = local.entries;
      list_result = ap (beside w.1) local.list_result;
      list_complete = local.list_complete;
    }

abbrev joined : Option Bytes → World → World
joined none w = w
joined (some key) w = (w.0, key ∷ w.1)

content-joined : (o : Option Bytes) (w : World) (j : Bytes) → content (joined o w) j ≡ content w j
content-joined none w j = refl
content-joined (some key) w j = refl

abbrev phone : IosKeychain World
phone = record {
  service = codes "app";
  password_func = none;
  is_synchronizable = true;
  is_accessible_when_unlocked = false;
}

library-IsSynchronizing : (w : World) → IsSynchronizing library (codes "app") content synced w
unfolding add join contains
library-IsSynchronizing w = record {
  joined = λ a. joined a.account w;
  join_result = λ key a full s h yes new. rw (yes, h, new) refl;
  join_synced = λ key a h. rw h (ground (arith, ==_refl key));
  join_content = λ a j. content-joined a.account w j;
  taken = duplicate;
  is_taken = refl;
  join_taken = λ key a full s h yes there. rw (yes, h, there) refl;
}

abbrev before : World
before = ([], [])

abbrev after : World
after = (set library phone x before).1

set_synchronized_example :
    ((set library phone x before).0 ≡ ok tt)
    × ((get library phone (codes "touch") after).0 ≡ err (sentinel err_key_not_found))
    × ((remove library phone (codes "touch") after).0 ≡ err (sentinel err_key_not_found))
    × ((ks : List Bytes) × ((keys library phone after).0 ≡ ok ks)
        × (contains ks (codes "touch") ≡ false))
    × (is_ok (set library phone x after).0 ≡ false)
set_synchronized_example =
    set_synchronized library phone content synced library-Is library-IsSynchronizing x before refl
      refl (unfold lookup in refl) (unfold contains in refl)
