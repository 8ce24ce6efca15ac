-- ===== src/Tests/Secrets.antt =====
-- A Secret Service in memory with one collection, in which an item's path is its label.
use keyring.Prelude.{
  ◌≡◌, refl, Bytes, codes, false, Option, none, some, List, [], ◌∷◌, ◌↔◌, list_eq, nat_eq, arith,
}
use keyring.Errors.{message}
use keyring.Exec.{Result, ok, err}
use keyring.Exec.Object.{Object}
use keyring.Dict.{lookup, insert, erase, keys_of, lookup-insert, lookup-erase, contains-keys_of}
use keyring.SecretService.{SecretsKeyring, find_collection}
use keyring.SecretService.Paths.{decode_keyring_string, decode_rest, rune_bytes, hex_byte}
use keyring.SecretService.Paths.Decoding.{Decoded, decode_keyring_string_iff}
use keyring.SecretService.Service.{Secret}
use keyring.SecretService.Service.{Service as LibSecret}
use keyring.SecretService.Assumed.{Found, IsService, map_labels}
use keyring.SecretService.Laws.{texts}
use keyring.Tests.Memory.{Memory}
use keyring.Tests.ItemTexts.{item_texts}

-- The underscore of the name is escaped.
abbrev path : Bytes
path = codes "/org/freedesktop/secrets/collection/my_5fapp"

abbrev secret_of : Bytes → Option Bytes → Result Secret
secret_of s none = err (message "no such object")
secret_of s (some b) = ok (record { session = s; parameters = []; value = b; content_type = [] })

abbrev items_of : Bytes → Option Bytes → List Bytes
items_of key none = []
items_of key (some b) = key ∷ []

abbrev service : LibSecret Memory
service = record {
  open_session = λ w. (ok [], w);
  collections = λ w. (ok (path ∷ []), w);
  create_collection = λ name w. (ok path, w);
  unlock = λ p w. (ok tt, w);
  search_items = λ c key w. (ok (items_of key (lookup key w)), w);
  items = λ c w. (ok (keys_of w), w);
  create_item = λ c key s replace w. (ok key, insert key s.value w);
  collection_locked = λ c w. (ok false, w);
  delete_collection = λ c w. (ok tt, []);
  item_locked = λ i w. (ok false, w);
  item_label = λ i w. (ok i, w);
  get_secret = λ i s w. (secret_of s (lookup i w), w);
  delete_item = λ i w. (ok tt, erase i w);
}

decodes_path : decode_keyring_string path ≡ codes "/org/freedesktop/secrets/collection/my_app"
unfolding decode_keyring_string decode_rest rune_bytes hex_byte list_eq nat_eq
decodes_path = refl

decode_keyring_string_iff_example :
    (decode_keyring_string path ≡ codes "/org/freedesktop/secrets/collection/my_app")
    ↔ Decoded path (codes "/org/freedesktop/secrets/collection/my_app")
decode_keyring_string_iff_example =
    decode_keyring_string_iff path (codes "/org/freedesktop/secrets/collection/my_app")

finds_path :
    find_collection (codes "/org/freedesktop/secrets/collection/my_app") (path ∷ []) ≡ some path
unfolding find_collection
finds_path = rw decodes_path (ground arith)

abbrev content : Memory → Bytes → Option Bytes
content w key = lookup key w

-- The item under a key is the key.
abbrev Holds : Memory → Bytes → Bytes → Bytes → Type 0
Holds w i key b = (i ≡ key) × (lookup key w ≡ some b)

lookup-Found :
    (w : Memory) (key : Bytes) (text : Option Bytes)
    → lookup key w ≡ text
    → Found (λ i b. Holds w i key b) (items_of key text) text
lookup-Found w key none h = tt
lookup-Found w key (some b) h = (refl, h)

map_labels_all : (keys : List Bytes) → map_labels (λ i. ok i) keys ≡ keys
map_labels_all [] = refl
map_labels_all (k ∷ keys) = rw (map_labels_all keys) refl

service-IsService :
    (w : Memory) → IsService service (codes "my_app") path content Holds (λ v p. false) w
service-IsService w = record {
  session = [];
  opened = w;
  open_result = refl;
  open_content = λ j. refl;
  paths = path ∷ [];
  collections_result = refl;
  collection_listed = finds_path;
  found_items = λ key. items_of key (lookup key w);
  search_result = λ key. refl;
  search_found = λ key. lookup-Found w key (lookup key w) refl;
  locked_result = λ i key b h. refl;
  collection_locked_result = refl;
  unlocked = λ p. w;
  unlock_result = λ p. refl;
  unlock_locked = λ p. refl;
  unlock_content = λ p j. refl;
  unlock_holds = λ p i key b h. h;
  parameters = [];
  content_type = [];
  secret_result = λ i key b s (same, h) u. rw (same, h) refl;
  deleted = λ i. erase i w;
  delete_result = λ i key b h u. refl;
  delete_content = λ i key b j (same, h). rw same (lookup-erase key j w);
  created = λ key secret. insert key secret.value w;
  create_path = λ key. key;
  create_result = λ key secret u. refl;
  create_content = λ key j secret. lookup-insert key j secret.value w;
  items = keys_of w;
  items_result = λ u. refl;
  labels = λ i. ok i;
  label_result = λ i. refl;
  labels_complete = λ j. rw (map_labels_all (keys_of w)) (contains-keys_of w j);
}

abbrev nothing_found : Object SecretsKeyring Memory
nothing_found = record { fields = record { collection = none; session = [] }; world = [] }

abbrev texts_of : Object SecretsKeyring Memory → Bytes → Option Bytes
texts_of =
    texts service item_texts (codes "my_app") path content Holds (λ v p. false) service-IsService
