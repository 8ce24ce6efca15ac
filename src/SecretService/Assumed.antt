-- ===== src/SecretService/Assumed.antt =====
-- What secretservice.go relies on of a Secret Service.
use keyring.Prelude.{
  ◌≡◌, Bytes, codes, Bool, true, false, Option, none, some, List, [], ◌∷◌, ◌++◌, contains, ◌==◌,
  list_eq, nat_eq, is_some, if◌then◌else◌,
}
use keyring.Exec.{Result, ok}
use keyring.SecretService.Service.{Secret}
use keyring.SecretService.Service.{Service as LibSecret}
use keyring.SecretService.{dbus_path, find_collection, add_label}

-- The items that a search found are those with the text, if there is one.
abbrev pub Found : (Bytes → Bytes → Type 0) → List Bytes → Option Bytes → Type 0
Found Holds [] none = Unit
Found Holds (i ∷ items) (some b) = Holds i b
Found Holds items text = ⊥

-- The labels that could be read.
abbrev pub map_labels : (Bytes → Result Bytes) → List Bytes → List Bytes
map_labels labels [] = []
map_labels labels (i ∷ items) = add_label (labels i) (map_labels labels items)

-- In the state `w` the service has the collection `c` of that name. `Holds w i key b` says that the
-- item `i` has the text `b` under the key. What is locked is unlocked on demand, an item is read or
-- deleted once it is unlocked, and an item that is made takes the place of one with its label.
pub record IsService {W : Type 0} (service : LibSecret W) (name c : Bytes)
    (content : W → Bytes → Option Bytes) (Holds : W → Bytes → Bytes → Bytes → Type 0)
    (is_locked : W → Bytes → Bool) (w : W) : Type 0 where
  pub session : Bytes
  pub opened : W
  pub open_result : service.open_session w ≡ (ok session, opened)
  pub open_content : (j : Bytes) → content opened j ≡ content w j
  pub paths : List Bytes
  pub collections_result : service.collections w ≡ (ok paths, w)
  pub collection_listed :
      find_collection (dbus_path ++ (codes "/collection/" ++ name)) paths ≡ some c
  pub found_items : Bytes → List Bytes
  pub search_result : (key : Bytes) → service.search_items c key w ≡ (ok (found_items key), w)
  pub search_found :
      (key : Bytes) → Found (λ i b. Holds w i key b) (found_items key) (content w key)
  pub locked_result :
      (i key b : Bytes) → Holds w i key b → service.item_locked i w ≡ (ok (is_locked w i), w)
  pub collection_locked_result : service.collection_locked c w ≡ (ok (is_locked w c), w)
  pub unlocked : Bytes → W
  pub unlock_result : (p : Bytes) → service.unlock p w ≡ (ok tt, unlocked p)
  pub unlock_locked : (p : Bytes) → is_locked (unlocked p) p ≡ false
  pub unlock_content : (p j : Bytes) → content (unlocked p) j ≡ content w j
  pub unlock_holds : (p i key b : Bytes) → Holds w i key b → Holds (unlocked p) i key b
  pub parameters : Bytes
  pub content_type : Bytes
  pub secret_result :
      (i key b s : Bytes)
      → Holds w i key b
      → is_locked w i ≡ false
      → service.get_secret i s w ≡ (
        ok (record {
          session = s;
          parameters = parameters;
          value = b;
          content_type = content_type;
        }),
        w,
      )
  pub deleted : Bytes → W
  pub delete_result :
      (i key b : Bytes)
      → Holds w i key b
      → is_locked w i ≡ false
      → service.delete_item i w ≡ (ok tt, deleted i)
  pub delete_content :
      (i key b j : Bytes)
      → Holds w i key b
      → content (deleted i) j ≡ (if key == j then none else content w j)
  pub created : Bytes → Secret → W
  pub create_path : Bytes → Bytes
  pub create_result :
      (key : Bytes) (secret : Secret)
      → is_locked w c ≡ false
      → service.create_item c key secret true w ≡ (ok (create_path key), created key secret)
  pub create_content :
      (key j : Bytes) (secret : Secret)
      → content (created key secret) j ≡ (if key == j then some secret.value else content w j)
  pub items : List Bytes
  pub items_result : is_locked w c ≡ false → service.items c w ≡ (ok items, w)
  pub labels : Bytes → Result Bytes
  pub label_result : (i : Bytes) → service.item_label i w ≡ (labels i, w)
  pub labels_complete : (j : Bytes) → contains (map_labels labels items) j ≡ is_some (content w j)
