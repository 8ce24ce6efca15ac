-- ===== src/OnePassword/Connect/Server.antt =====
-- What is assumed of a 1Password Connect server (behind opconnect.go): it keeps the items of a
-- vault in a list, each with an ID of its own.
use keyring.Prelude.{
  ◌≡◌, Bytes, false, Option, none, some, List, [], ◌∷◌, ◌++◌, map, contains, ◌==◌, list_eq, nat_eq,
  if◌then◌else◌,
}
use keyring.Exec.{ok}
use keyring.OnePassword.Connect.Sdk.{ConnectField, ConnectItem, ConnectClient}

-- A list of items comes without their fields.
abbrev pub overview : ConnectItem → ConnectItem
overview i = record i { fields = [] }

unfoldable pub titled : Bytes → List ConnectItem → List ConnectItem
titled t [] = []
titled t (i ∷ items) = let rest = titled t items in if i.title == t then i ∷ rest else rest

unfoldable pub find : Bytes → List ConnectItem → Option ConnectItem
find id [] = none
find id (i ∷ items) = let rest = find id items in if i.id == id then some i else rest

unfoldable pub ids : List ConnectItem → List Bytes
ids [] = []
ids (i ∷ items) = i.id ∷ ids items

abbrev pub AreDistinct : List ConnectItem → Type 0
AreDistinct [] = Unit
AreDistinct (i ∷ items) = (contains (ids items) i.id ≡ false) × AreDistinct items

-- The item in place of the one with its ID.
unfoldable pub replaced : ConnectItem → List ConnectItem → List ConnectItem
replaced n [] = []
replaced n (i ∷ items) = let rest = replaced n items in if i.id == n.id then n ∷ rest else i ∷ rest

unfoldable pub without : Bytes → List ConnectItem → List ConnectItem
without id [] = []
without id (i ∷ items) = let rest = without id items in if i.id == id then rest else i ∷ rest

-- A new item as it is stored, with IDs for it and for its fields.
abbrev pub numbered : Bytes → (ConnectField → Bytes) → ConnectItem → ConnectItem
numbered id field_id i = record i {
  id = id;
  fields = map {A = ConnectField} {B = ConnectField} (λ f. record f { id = field_id f }) i.fields;
}

pub record IsServer {W : Type 0} (client : ConnectClient W) (vault_id : Bytes)
    (vault : W → List ConnectItem) (w : W) : Type 0 where
  pub by_title :
      (t : Bytes)
      → (client.get_items_by_title t vault_id w).0 ≡ ok (map overview (titled t (vault w)))
  pub by_title_vault : (t : Bytes) → vault (client.get_items_by_title t vault_id w).1 ≡ vault w
  pub by_id :
      (id : Bytes) (i : ConnectItem)
      → find id (vault w) ≡ some i
      → (client.get_item_by_uuid id vault_id w).0 ≡ ok i
  pub by_id_vault : (id : Bytes) → vault (client.get_item_by_uuid id vault_id w).1 ≡ vault w
  pub create_result : (i : ConnectItem) → (client.create_item i vault_id w).0 ≡ ok tt
  pub new_id : ConnectItem → Bytes
  pub new_field_id : ConnectField → Bytes
  pub is_new : (i : ConnectItem) → contains (ids (vault w)) (new_id i) ≡ false
  pub create_vault :
      (i : ConnectItem)
      → vault (client.create_item i vault_id w).1
        ≡ vault w ++ numbered (new_id i) new_field_id i ∷ []
  pub update_result :
      (i j : ConnectItem)
      → find i.id (vault w) ≡ some j
      → (client.update_item i vault_id w).0 ≡ ok tt
  pub update_vault :
      (i j : ConnectItem)
      → find i.id (vault w) ≡ some j
      → vault (client.update_item i vault_id w).1 ≡ replaced i (vault w)
  pub delete_result :
      (id : Bytes) (j : ConnectItem)
      → find id (vault w) ≡ some j
      → (client.delete_item_by_id id vault_id w).0 ≡ ok tt
  pub delete_vault :
      (id : Bytes) (j : ConnectItem)
      → find id (vault w) ≡ some j
      → vault (client.delete_item_by_id id vault_id w).1 ≡ without id (vault w)
