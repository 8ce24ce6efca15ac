-- ===== src/OnePassword/Standard.antt =====
-- opstandard.go: the operations that the backends over the 1Password SDK share.
pub mod Fields
pub mod Listing
use keyring.Prelude.{
  Bytes, Bool, not, ◌&&◌, none, List, [], ◌∷◌, contains, ◌==◌, list_eq, nat_eq, if◌then◌else◌,
}
use keyring.Errors.{message, wrapf, is, err_key_not_found}
use keyring.Exec.{Exec, Result, ok, err, pure, raise, lift, attempt, on_error, ◌>>=◌, ◌>>◌}
use keyring.Api.{ItemCodec, Item, Metadata, Keyring}
use keyring.OnePassword.Sdk.{OpField, OpItem, Overview, Client}
use keyring.OnePassword.Items.{is_item_field, single, first_value, keys_of_items}
use keyring.OnePassword.Base.{OpBaseKeyring, title_from_key}

module _ {W : Type 0} (client : Client W) (json : ItemCodec) (k : OpBaseKeyring W) where
  concealed_fields : List OpField → List OpField
  concealed_fields [] = []
  concealed_fields (f ∷ fields) =
      let rest = concealed_fields fields in
      if f.field_type == client.item_field_type_concealed then f ∷ rest else rest

  is_listed : Overview → Bool
  is_listed o =
      contains o.tags k.item_tag
      && (o.state == client.item_state_active && o.category == client.item_category_api_credentials)

  -- The items behind one whose concealed fields are given.
  with_item : OpItem → List OpItem → List OpItem
  unfolding concealed_fields is_item_field
  with_item item rest =
      let fields = concealed_fields item.fields in
      if is_item_field k fields then record item { fields = fields } ∷ rest else rest

  collect_items : List Overview → Exec W (List OpItem)
  unfolding is_listed with_item
  collect_items [] = pure []
  collect_items (o ∷ overviews) =
      if is_listed o
      then (do
        item ←
            on_error (wrapf "unable to get item with ID %#v from vault with ID %#v: %w")
              (client.get k.vault_id o.id)
        rest ← collect_items overviews
        pure (with_item item rest))
      else collect_items overviews

  unfoldable pub op_items : Exec W (List OpItem)
  unfolding collect_items
  op_items = do
    overviews ←
        on_error (wrapf "unable to list items from vault with ID %#v: %w") (client.list k.vault_id)
    collect_items overviews

  pub with_title : Bytes → List OpItem → List OpItem
  with_title title [] = []
  with_title title (i ∷ items) =
      let rest = with_title title items in if i.title == title then i ∷ rest else rest

  unfoldable pub op_item : Bytes → Exec W OpItem
  unfolding with_title single
  op_item key = do items ← op_items; lift (single (with_title (title_from_key k key) items))

  pub get : Bytes → Exec W Item
  unfolding first_value
  get key = do item ← op_item key; value ← lift (first_value item.fields); lift (json.decode value)

  pub get_metadata : Bytes → Exec W Metadata
  get_metadata key = pure (record { item = none; modification_time = 0 })

  -- `opItem.Fields[0].Value = value`.
  set_first_value : Bytes → List OpField → Result (List OpField)
  set_first_value value [] = err (message "index out of range")
  set_first_value value (f ∷ fields) = ok (record f { value = value } ∷ fields)

  create_item : Bytes → Bytes → Exec W Unit
  create_item title value =
      on_error (wrapf "unable to create item with title %#v in vault with ID %#v: %w") (
        client.create (record {
          category = client.item_category_api_credentials;
          vault_id = k.vault_id;
          title = title;
          fields =
              record {
                id = [];
                title = k.item_field_title;
                field_type = client.item_field_type_concealed;
                value = value;
              }
              ∷ [];
          tags = k.item_tag ∷ [];
        }))

  put_item : OpItem → Bytes → Exec W Unit
  unfolding set_first_value
  put_item item value = do
    fields ← lift (set_first_value value item.fields)
    (λ w.
        let (now, w₁) = client.now w in
        on_error (wrapf "unable to put item with title %#v in vault with ID %#v: %w")
          (client.put (record item { fields = fields; updated_at = now })) w₁)

  set_found : Item → Result OpItem → Exec W Unit
  unfolding create_item put_item
  set_found item (ok found) = do value ← lift (json.encode item); put_item found value
  set_found item (err e) =
      if not (is e err_key_not_found)
      then raise e
      else do value ← lift (json.encode item); create_item (title_from_key k item.key) value

  pub set : Item → Exec W Unit
  unfolding set_found
  set item = do r ← attempt (op_item item.key); set_found item r

  pub remove : Bytes → Exec W Unit
  remove key = do
    item ← op_item key
    on_error (wrapf "unable to delete item with ID %#v in vault with ID %#v: %w")
        (client.delete k.vault_id item.id)

  pub keys : Exec W (List Bytes)
  unfolding keys_of_items
  keys = do items ← op_items; lift (keys_of_items k items)

  abbrev pub op_standard_ring : Keyring W
  op_standard_ring = record {
    get = get;
    get_metadata = get_metadata;
    set = set;
    remove = remove;
    keys = keys;
  }
