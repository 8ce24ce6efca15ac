-- ===== src/Tests/Keychains.antt =====
-- A keychain in memory, whose files of other keychains cannot be unlocked.
use keyring.Prelude.{
  ◌≡◌, refl, ap, sym, ◌∙◌, is_empty, Bytes, codes, Bool, true, false, Option, none, some, is_some,
  List, [], ◌∷◌, list_eq, nat_eq, arith, if◌then◌else◌,
}
use keyring.Errors.{Error, errno, message}
use keyring.Exec.{Result, ok, err}
use keyring.Api.{Item, plain_item}
use keyring.Dict.{
  Dict, lookup, insert, erase, keys_of, lookup-insert, lookup-erase, contains-keys_of,
}
use keyring.Keychain.{accounts_of, of_service, of_account, one_of_account, all_of_service}
use keyring.Keychain.Library.{Attributes, QueryResult, Library}
use keyring.Keychain.Ios.{IosKeychain, ios_ring}
use keyring.Keychain.Assumed.{IsKeychain, Shows, results_of}
use keyring.Keychain.Keeping.{KeepsItem}
use keyring.Keychain.Ios.Laws.{ios_ring-KeepsItem}
use keyring.Keychain.Opening.{MacKeychain, open_with_touch_id}
use keyring.Keychain.Mac.{mac_ring}
use keyring.Keychain.Mac.Laws.{mac_ring-KeepsItem}
use keyring.Keychain.Opening.TouchId.{passphrase_query, open_with_touch_id_fails}

abbrev pub Store : Type 0
Store = Dict QueryResult

pub entries_of : Store → List QueryResult
entries_of [] = []
entries_of ((k, r) ∷ w) = record r { account = k } ∷ entries_of w

accounts_of-entries_of : (w : Store) → accounts_of (entries_of w) ≡ keys_of w
unfolding entries_of accounts_of keys_of
accounts_of-entries_of [] = refl
accounts_of-entries_of ((k, r) ∷ w) = ap (λ (l : List Bytes). k ∷ l) (accounts_of-entries_of w)

abbrev query : Option Bytes → Store → List QueryResult × Option Error
query none w = (entries_of w, none)
query (some key) w = results_of none (lookup key w)

pub duplicate : Error
duplicate = errno 25299

-- An empty text counts as not given.
pub given : Option Bytes → Bytes → Bytes
given none old = old
given (some []) old = old
given (some (c ∷ t)) old = c ∷ t

pub label_of : Option QueryResult → Bytes
label_of none = []
label_of (some r) = r.label

pub description_of : Option QueryResult → Bytes
description_of none = []
description_of (some r) = r.description

-- What is under an account after an addition, or an update of what was there.
pub entry_after : Option QueryResult → Bytes → Attributes → QueryResult
unfolding given label_of description_of
entry_after old key a = record {
  account = key;
  label = given a.label (label_of old);
  description = given a.description (description_of old);
  content = given a.content [];
  modification_date = 0;
}

given_full : (o : Option Bytes) (t old : Bytes) → is_empty t ≡ false → o ≡ some t → given o old ≡ t
unfolding given
given_full none t old h e = cc
given_full (some []) t old h e = ground arith
given_full (some (c ∷ s)) t old h e = ground arith

entry_after-Shows :
    (old : Option QueryResult) (key c : Bytes) (a : Attributes)
    → a.content ≡ some c
    → is_empty c ≡ false
    → Shows a (entry_after old key a)
unfolding entry_after
entry_after-Shows old key c a e full = record {
  shown_content = ap some (given_full a.content c [] full e) ∙ sym e;
  shown_label = λ t h l. given_full a.label t (label_of old) h l;
  shown_description = λ t h d. given_full a.description t (description_of old) h d;
}

abbrev put : Option Bytes → Attributes → Store → Store
put none a w = w
put (some key) a w = insert key (entry_after (lookup key w) key a) w

abbrev there : Option Bytes → Store → Bool
there none w = false
there (some key) w = is_some (lookup key w)

-- An item that is to be synchronized is kept elsewhere.
abbrev add : Option Bool → Attributes → Store → Result (Unit {0}) × Store
add (some synchronizable) a w = (ok tt, w)
add none a w = if there a.account w then (err duplicate, w) else (ok tt, put a.account a w)

abbrev drop : Option Bytes → Store → Store
drop none w = w
drop (some key) w = erase key w

abbrev pub library : Library Store
library = record {
  query_item = λ a w. (query a.account w, w);
  add_item = λ a w. add a.synchronizable a w;
  update_item = λ q a w. (ok tt, put q.account a w);
  delete_item =
      λ a w. if there a.account w then (ok tt, drop a.account w) else (err (errno 25300), w);
  status = λ p w. (ok tt, w);
  new_keychain = λ p s w. (ok tt, w);
  new_keychain_with_prompt = λ p w. (ok tt, w);
  lock_at_path = λ p w. (ok tt, w);
  unlock_at_path = λ p s w. (err (errno 25293), w);
  is_item_not_found = λ e. true;
  is_duplicate_item = λ e. true;
  is_no_such_keychain = λ e. false;
  quoted = λ s. s;
  authenticate = λ reason w. (ok tt, w);
  read_password = λ w. (ok [], w);
}

abbrev ios : IosKeychain Store
ios = record {
  service = codes "app";
  password_func = none;
  is_synchronizable = true;
  is_accessible_when_unlocked = true;
}

abbrev pub content : Store → Bytes → Option QueryResult
content w key = lookup key w

pub library-IsKeychain : (w : Store) → IsKeychain library (codes "app") content w
unfolding one_of_account all_of_service of_account of_service entry_after
library-IsKeychain w = record {
  named = refl;
  missing = none;
  query_result = λ key full. refl;
  described = λ r. r;
  describe_result = λ key full. ground arith;
  entry = λ key a. entry_after (lookup key w) key a;
  entry-Shows = λ key c a e full. entry_after-Shows (lookup key w) key c a e full;
  added = λ a. put a.account a w;
  add_result = λ key a full s h n e. rw (n, h, e) refl;
  add_content = λ key j a h. rw h (lookup-insert key j (entry_after (lookup key w) key a) w);
  duplicate = duplicate;
  is_duplicate = refl;
  add_duplicate = λ key a r full s h n e. rw (n, h, e) refl;
  updated = λ key a. insert key (entry_after (lookup key w) key a) w;
  update_result = λ key a r full n e. refl;
  update_content = λ key j a. lookup-insert key j (entry_after (lookup key w) key a) w;
  absent = errno 25300;
  is_absent = refl;
  deleted = λ key. erase key w;
  delete_result = λ key r full e. rw e refl;
  delete_absent = λ key full e. rw e refl;
  delete_content = λ key j. lookup-erase key j w;
  entries = entries_of w;
  list_result = refl;
  list_complete = λ j full. rw (accounts_of-entries_of w) (contains-keys_of w j);
}

abbrev passphrase : QueryResult
passphrase = record {
  account = codes "touch";
  label = [];
  description = [];
  content = codes "old";
  modification_date = 0;
}

abbrev stored : Store
stored = (codes "touch", passphrase) ∷ []

abbrev pub x : Item
x = record (plain_item (codes "touch") (codes "new")) { label = codes "Touch" }

-- An update, in a keyring that synchronizes other items.
ios_ring-KeepsItem_example :
    KeepsItem
      (ios_ring library ios)
      (record x { keychain_not_synchronizable = true })
      (codes "y")
      stored
unfolding list_eq nat_eq
ios_ring-KeepsItem_example =
    ios_ring-KeepsItem library ios content library-IsKeychain
      (record x { keychain_not_synchronizable = true }) (codes "y") stored refl refl refl refl refl

abbrev mac : MacKeychain Store
mac = record {
  path = codes "vault.keychain";
  service = codes "app";
  password_func = none;
  is_synchronizable = false;
  is_accessible_when_unlocked = false;
  is_trusted = false;
  use_touch_id = true;
  touch_id_account = codes "touch";
  touch_id_service = codes "service";
}

open_with_touch_id_fails_example :
    (open_with_touch_id library mac (record { fields = false; world = stored })
      ≡ (err (message "failed to unlock keychain: %v"), record { fields = true; world = stored }))
    × (open_with_touch_id library mac (record { fields = true; world = stored })
        ≡ (ok (codes "vault.keychain"), record { fields = true; world = stored }))
unfolding passphrase_query of_account of_service lookup list_eq nat_eq
open_with_touch_id_fails_example =
    open_with_touch_id_fails library mac stored stored stored stored passphrase (errno 25293) refl
      refl refl

abbrev default_keychain : MacKeychain Store
default_keychain = record mac { path = []; use_touch_id = false }

mac_ring-KeepsItem_example :
    KeepsItem
      (mac_ring library default_keychain)
      x
      (codes "y")
      (record { fields = false; world = stored })
unfolding list_eq nat_eq
mac_ring-KeepsItem_example =
    mac_ring-KeepsItem library default_keychain content library-IsKeychain refl x (codes "y")
      (record { fields = false; world = stored }) refl refl refl refl refl
