-- ===== src/OnePassword/Standard/Fields.antt =====
-- The fields of the items that the 1Password backends work on (opstandard.go).
use keyring.Prelude.{
  ◌≡◌, refl, subst, Bytes, true, List, [], ◌∷◌, arith, Bool-cases, inl, inr, ◌==◌, list_eq, nat_eq,
}
use keyring.Errors.{wrapf}
use keyring.Exec.{ok, on_error}
use keyring.Exec.Runs.{>>=-eq-ok, run-eq-ok}
use keyring.Api.{ItemCodec}
use keyring.OnePassword.Sdk.{OpField, OpItem, Overview, Client}
use keyring.OnePassword.Base.{OpBaseKeyring, title_from_key}
use keyring.OnePassword.Items.{is_item_field, single, first_value}
use keyring.OnePassword.Standard.{
  concealed_fields, is_listed, with_item, collect_items, op_items, op_item, with_title, get,
}

module _ {W : Type 0} (client : Client W) (json : ItemCodec) (k : OpBaseKeyring W) where
  -- One field, concealed and with the configured title.
  pub record IsSingle (item : OpItem) : Type 0 where
    pub field : OpField
    pub only : item.fields ≡ field ∷ []
    pub title : field.title ≡ k.item_field_title
    pub concealed : field.field_type ≡ client.item_field_type_concealed

  pub data AreSingle : List OpItem → Type 0 where
    none_left : AreSingle []
    one_more :
        {i : OpItem} {items : List OpItem} → IsSingle i → AreSingle items → AreSingle (i ∷ items)

  -- All fields of a list are concealed.
  AreConcealed : List OpField → Type 0
  AreConcealed [] = Unit
  AreConcealed (f ∷ fields) =
      (f.field_type ≡ client.item_field_type_concealed) × AreConcealed fields

  concealed_fields-AreConcealed :
      (fields : List OpField) → AreConcealed (concealed_fields client json k fields)
  unfolding AreConcealed concealed_fields
  concealed_fields-AreConcealed [] = tt
  concealed_fields-AreConcealed (f ∷ fields) =
      elim (Bool-cases (f.field_type == client.item_field_type_concealed)) [
        | inl h ↦ rw h (ground arith, concealed_fields-AreConcealed fields)
        | inr h ↦ rw h (concealed_fields-AreConcealed fields)
      ]

  kept-IsSingle :
      (item : OpItem) (fields : List OpField)
      → AreConcealed fields
      → is_item_field k fields ≡ true
      → IsSingle (record item { fields = fields })
  unfolding AreConcealed is_item_field
  kept-IsSingle item [] c h = cc
  kept-IsSingle item (f ∷ []) (c, u) h = record {
    field = f;
    only = refl;
    title = ground arith;
    concealed = c;
  }
  kept-IsSingle item (f ∷ g ∷ fields) c h = cc

  with_item-AreSingle :
      (item : OpItem) (rest : List OpItem)
      → AreSingle rest
      → AreSingle (with_item client json k item rest)
  unfolding with_item
  with_item-AreSingle item rest h =
      let fields = concealed_fields client json k item.fields in
      elim (Bool-cases (is_item_field k fields)) [
        | inl e ↦
            rw e
              (one_more (kept-IsSingle item fields (concealed_fields-AreConcealed item.fields) e) h)
        | inr e ↦ rw e h
      ]

  collect_items-AreSingle :
      (overviews : List Overview) (w w' : W) (items : List OpItem)
      → collect_items client json k overviews w ≡ (ok items, w')
      → AreSingle items
  unfolding collect_items
  collect_items-AreSingle [] w w' items h = subst AreSingle (ground arith) none_left
  collect_items-AreSingle (o ∷ overviews) w w' items h =
      elim (Bool-cases (is_listed client json k o)) [
        | inl e ↦
            let (item, got, h₁) =
              >>=-eq-ok (on_error (wrapf _) (client.get k.vault_id o.id)) _ w (rw e at h) in
            let (rest, found, h₂) = >>=-eq-ok (collect_items client json k overviews) _ _ h₁ in
            let same : with_item client json k item rest ≡ items = ground arith in
            subst AreSingle same (
              with_item-AreSingle item rest (
                collect_items-AreSingle overviews _ _ rest
                  (run-eq-ok (collect_items client json k overviews) _ found)))
        | inr e ↦ collect_items-AreSingle overviews w w' items (rw e at h)
      ]

  op_items-AreSingle :
      (w w' : W) (items : List OpItem) → op_items client json k w ≡ (ok items, w') → AreSingle items
  unfolding op_items
  op_items-AreSingle w w' items h =
      let (overviews, listed, h₁) = >>=-eq-ok (on_error (wrapf _) (client.list k.vault_id)) _ w h in
      collect_items-AreSingle overviews _ w' items h₁

  with_title-AreSingle :
      (title : Bytes) (items : List OpItem)
      → AreSingle items
      → AreSingle (with_title client json k title items)
  unfolding with_title
  with_title-AreSingle title [] h = none_left
  with_title-AreSingle title (i ∷ items) (one_more s h) = elim (Bool-cases (i.title == title)) [
    | inl e ↦ rw e (one_more s (with_title-AreSingle title items h))
    | inr e ↦ rw e (with_title-AreSingle title items h)
  ]

  -- All of them have the title.
  AreTitled : Bytes → List OpItem → Type 0
  AreTitled title [] = Unit
  AreTitled title (i ∷ items) = (i.title ≡ title) × AreTitled title items

  with_title-AreTitled :
      (title : Bytes) (items : List OpItem) → AreTitled title (with_title client json k title items)
  unfolding with_title AreTitled
  with_title-AreTitled title [] = tt
  with_title-AreTitled title (i ∷ items) = elim (Bool-cases (i.title == title)) [
    | inl e ↦ rw e (ground arith, with_title-AreTitled title items)
    | inr e ↦ rw e (with_title-AreTitled title items)
  ]

  picked :
      (title : Bytes) (items : List OpItem) (item : OpItem)
      → AreSingle items
      → AreTitled title items
      → single items ≡ ok item
      → IsSingle item × (item.title ≡ title)
  unfolding single AreTitled
  picked title [] item s t h = cc
  picked title (i ∷ []) item (one_more s none_left) (t, u) h =
      subst (λ (x : OpItem). IsSingle x × (x.title ≡ title)) (ground arith) (s, t)
  picked title (i ∷ j ∷ items) item s t h = cc

  -- The item that is found for a key has the title of the key and exactly one field, concealed and
  -- with the configured title; `Get`, which takes the first field, then finds it there and returns
  -- what JSON makes of its value.
  pub op_item-IsSingle :
      (key : Bytes) (w w' : W) (item : OpItem)
      → op_item client json k key w ≡ (ok item, w')
      → (s : IsSingle item) × (item.title ≡ title_from_key k key)
        × (get client json k key w ≡ (json.decode s.field.value, w'))
  unfolding op_item get first_value
  op_item-IsSingle key w w' item h =
      let (items, found, h₁) = >>=-eq-ok (op_items client json k) _ w h in
      let title = title_from_key k key in
      let (s, t) =
        picked title (with_title client json k title items) item
          (with_title-AreSingle title items
            (op_items-AreSingle w _ items (run-eq-ok (op_items client json k) w found)))
          (with_title-AreTitled title items) (ground arith) in
      (s, t, ground (arith, h, s.only))
