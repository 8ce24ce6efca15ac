-- ===== src/OnePassword/Connect/Vault.antt =====
-- The keyring items among the items of a vault (opconnect.go), and how changes act on them.
use keyring.Prelude.{
  ℕ, ◌≡◌, ==_refl, refl, sym, ◌∙◌, Bytes, true, false, some, List, [], ◌∷◌, contains, arith,
  Bool-cases, inl, inr, ◌==◌, list_eq, nat_eq, if◌then◌else◌,
}
use keyring.Api.{ItemCodec}
use keyring.WinHello.Window.{Ask}
use keyring.OnePassword.Sdk.{OpField, OpItem}
use keyring.Exec.{ok}
use keyring.OnePassword.Items.{is_item_field, first_value}
use keyring.OnePassword.Connect.Sdk.{ConnectItem, ConnectSdk}
use keyring.OnePassword.Connect.{
  OpConnectKeyring, with_item, is_listed, concealed_fields, connect_item,
}
use keyring.OnePassword.Connect.Server.{titled, find, ids, AreDistinct}

module _ {W : Type 0} (getenv : Bytes → Ask W Bytes) (sdk : ConnectSdk W) (json : ItemCodec)
    (k : OpConnectKeyring W) where
  -- The items that are the keyring's, in full.
  unfoldable pub hydrated : List ConnectItem → List OpItem
  hydrated [] = []
  hydrated (i ∷ items) =
      let rest = hydrated items in
      if is_listed getenv sdk json k i then with_item getenv sdk json k i rest else rest

  pub hydrated-nil : hydrated [] ≡ []
  unfolding hydrated
  hydrated-nil = refl

  abbrev pub under : Bytes → List ConnectItem → List OpItem
  under t items = hydrated (titled t items)

  -- An item of the vault is one of the keyring's or is passed over.
  pub data Counts (i : ConnectItem) : Type 0 where
    counts :
        (h : OpItem)
        → h.id ≡ i.id
        → (f : OpField) × (h.fields ≡ f ∷ [])
        → ((items : List ConnectItem) → hydrated (i ∷ items) ≡ h ∷ hydrated items)
        → Counts i
    passed : ((items : List ConnectItem) → hydrated (i ∷ items) ≡ hydrated items) → Counts i

  abbrev full : ConnectItem → OpItem
  full i = record {
    id = i.id;
    title = i.title;
    category = sdk.op_standard_item_category;
    tags = i.tags;
    fields = concealed_fields getenv sdk json k i.fields;
    updated_at = i.updated_at;
  }

  only_field :
      (fields : List OpField)
      → is_item_field k.base fields ≡ true
      → (f : OpField) × (fields ≡ f ∷ [])
  unfolding is_item_field
  only_field [] h = cc
  only_field (f ∷ []) h = (f, refl)
  only_field (f ∷ g ∷ fields) h = cc

  pub Counts-cases : (i : ConnectItem) → Counts i
  unfolding hydrated with_item
  Counts-cases i = elim (Bool-cases (is_listed getenv sdk json k i)) [
    | inl l ↦
        elim (Bool-cases (is_item_field k.base (concealed_fields getenv sdk json k i.fields))) [
          | inl f ↦ counts (full i) refl (only_field _ f) (λ items. rw (l, f) refl)
          | inr f ↦ passed (λ items. rw (l, f) refl)
        ]
    | inr l ↦ passed (λ items. rw l refl)
  ]

  pub contains-ids-under :
      (t : Bytes) (items : List ConnectItem) (h : OpItem)
      → under t items ≡ h ∷ []
      → contains (ids items) h.id ≡ true
  unfolding titled ids contains hydrated
  contains-ids-under t [] h e = cc
  contains-ids-under t (i ∷ items) h e = elim (Bool-cases (i.title == t)) [
    | inl same ↦ elim (Counts-cases i) [
      | counts g id one adds ↦
          let e' : g ∷ under t items ≡ h ∷ [] = sym (adds (titled t items)) ∙ (rw same at e) in
          ground (arith, e', id)
      | passed skips ↦
          let e' : under t items ≡ h ∷ [] = sym (skips (titled t items)) ∙ (rw same at e) in
          ground (arith, contains-ids-under t items h e')
    ]
    | inr other ↦ ground (arith, contains-ids-under t items h (rw other at e))
  ]

  -- It has one field.
  pub only_field_under :
      (t : Bytes) (items : List ConnectItem) (h : OpItem)
      → under t items ≡ h ∷ []
      → (f : OpField) × (h.fields ≡ f ∷ [])
  unfolding titled hydrated
  only_field_under t [] h e = cc
  only_field_under t (i ∷ items) h e = elim (Bool-cases (i.title == t)) [
    | inl same ↦ elim (Counts-cases i) [
      | counts g id (f, one) adds ↦
          let e' : g ∷ under t items ≡ h ∷ [] = sym (adds (titled t items)) ∙ (rw same at e) in
          (f, ground (arith, e', one))
      | passed skips ↦ only_field_under t items h (sym (skips (titled t items)) ∙ (rw same at e))
    ]
    | inr other ↦ only_field_under t items h (rw other at e)
  ]

  behind :
      (t : Bytes) (i : ConnectItem) (items : List ConnectItem) (h : OpItem)
      → contains (ids items) i.id ≡ false
      → contains (ids items) h.id ≡ true
      → (j : ConnectItem) × (find h.id items ≡ some j) × ((j.title == t) ≡ true)
      → (j : ConnectItem) × (find h.id (i ∷ items) ≡ some j) × ((j.title == t) ≡ true)
  unfolding find
  behind t i items h new there (j, found, same) = (j, ground (arith, found, new, there), same)

  -- The item that is counted is found by its ID, and has the title.
  pub found_under :
      (t : Bytes) (items : List ConnectItem) (h : OpItem)
      → AreDistinct items
      → under t items ≡ h ∷ []
      → (j : ConnectItem) × (find h.id items ≡ some j) × ((j.title == t) ≡ true)
  unfolding titled ids contains hydrated find
  found_under t [] h d e = cc
  found_under t (i ∷ items) h (new, d) e = elim (Bool-cases (i.title == t)) [
    | inl same ↦ elim (Counts-cases i) [
      | counts g id one adds ↦
          let e' : g ∷ under t items ≡ h ∷ [] = sym (adds (titled t items)) ∙ (rw same at e) in
          (i, ground (arith, e', id), same)
      | passed skips ↦
          let e' : under t items ≡ h ∷ [] = sym (skips (titled t items)) ∙ (rw same at e) in
          behind t i items h new (contains-ids-under t items h e') (found_under t items h d e')
    ]
    | inr other ↦
        let e' : under t items ≡ h ∷ [] = rw other at e in
        behind t i items h new (contains-ids-under t items h e') (found_under t items h d e')
  ]

  -- An item as `Set` makes it is one of the keyring's.
  pub hydrated-connect_item :
      (id field_id title value : Bytes) (updated_at : ℕ)
      → (h : OpItem) × (hydrated
            (connect_item getenv sdk json k id field_id title value updated_at ∷ [])
          ≡ h ∷ [])
        × (first_value h.fields ≡ ok value)
  unfolding hydrated is_listed with_item concealed_fields connect_item is_item_field first_value
      contains
  hydrated-connect_item id field_id title value updated_at =
      let i = connect_item getenv sdk json k id field_id title value updated_at in
      (
        full i,
        rw
            (
              ==_refl k.base.item_tag,
              ==_refl sdk.api_credential,
              ==_refl sdk.field_type_concealed,
              ==_refl k.base.item_field_title,
            )
            refl,
        rw (==_refl sdk.field_type_concealed) refl,
      )
