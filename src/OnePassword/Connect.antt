-- ===== src/OnePassword/Connect.antt =====
-- opconnect.go: the backend over a 1Password Connect server. The methods have value receivers, so
-- that a client that one of them makes is gone when it returns.
pub mod Sdk
pub mod Server
pub mod Vault
pub mod Changes
pub mod Fetching
pub mod SetGet
use keyring.Prelude.{
  ℕ, Bytes, codes, Bool, not, ◌&&◌, Option, none, some, List, [], ◌∷◌, ◌++◌, contains, ◌==◌,
  list_eq, nat_eq, if◌then◌else◌,
}
use keyring.Errors.{Error, sentinel, message, wrapf, is, err_key_not_found, op_connect_err_keyring}
use keyring.Exec.{Exec, Result, ok, err, pure, raise, lift, attempt, on_error, ◌>>=◌, ◌>>◌}
use keyring.Api.{Item, Metadata, Keyring, Config, ItemCodec}
use keyring.WinHello.Window.{Ask}
use keyring.OnePassword.Sdk.{OpField, OpItem}
use keyring.OnePassword.Base.{OpBaseKeyring, title_from_key, op_token}
use keyring.OnePassword.Items.{is_item_field, single, first_value, keys_of_items}
use keyring.OnePassword.Settings.{
  unset, setting_or_env, unless_errors, base_keyring, op_env_vault_id, op_err_vault_id,
}
use keyring.OnePassword.Connect.Sdk.{ConnectField, ConnectItem, ConnectClient, ConnectSdk}

abbrev op_connect_env_host : Bytes
op_connect_env_host = codes "OP_CONNECT_HOST"

abbrev op_connect_env_token : Bytes
op_connect_env_token = codes "OP_CONNECT_TOKEN"

abbrev op_connect_err_host : Error
op_connect_err_host = unset (sentinel op_connect_err_keyring)

pub record OpConnectKeyring (W : Type 0) : Type 0 where
  pub base : OpBaseKeyring W
  pub host : Bytes
  pub client : Option (ConnectClient W)

module _ {W : Type 0} (getenv : Bytes → Ask W Bytes) (sdk : ConnectSdk W) where
  pub new_op_connect_keyring : Config W → Ask W (Result (OpConnectKeyring W))
  new_op_connect_keyring cfg w =
      let ((vault_id, vault_errs), w₁) =
        setting_or_env getenv cfg.op_vault_id op_env_vault_id op_err_vault_id w in
      let ((host, host_errs), w₂) =
        setting_or_env getenv cfg.op_connect_host op_connect_env_host op_connect_err_host w₁ in
      (
        unless_errors (vault_errs ++ host_errs) (record {
          base = base_keyring cfg vault_id (cfg.op_connect_token_env ∷ op_connect_env_token ∷ []);
          host = host;
          client = none;
        }),
        w₂,
      )

  module _ (json : ItemCodec) (k : OpConnectKeyring W) where
    make_client : Option (ConnectClient W) → Exec W (ConnectClient W)
    make_client (some client) = pure client
    make_client none = do
      token ← op_token k.base getenv (codes "Enter 1Password Connect token")
      pure (sdk.new_client k.host token)

    -- The client that an operation works with.
    unfoldable pub initialize_op_connect_client : Exec W (ConnectClient W)
    unfolding make_client
    initialize_op_connect_client = make_client k.client

    concealed_fields : List ConnectField → List OpField
    concealed_fields [] = []
    concealed_fields (f ∷ fields) =
        let rest = concealed_fields fields in
        if f.field_type == sdk.field_type_concealed
        then record {
          id = f.id;
          title = f.label;
          field_type = sdk.op_standard_item_field_type;
          value = f.value;
        }
          ∷ rest
        else rest

    -- The items behind one that was fetched.
    unfoldable pub with_item : ConnectItem → List OpItem → List OpItem
    unfolding concealed_fields
    with_item item rest =
        let fields = concealed_fields item.fields in
        if is_item_field k.base fields
        then record {
          id = item.id;
          title = item.title;
          category = sdk.op_standard_item_category;
          tags = item.tags;
          fields = fields;
          updated_at = item.updated_at;
        }
          ∷ rest
        else rest

    unfoldable pub is_listed : ConnectItem → Bool
    is_listed o = contains o.tags k.base.item_tag && o.category == sdk.api_credential

    pub prune_and_hydrate : ConnectClient W → List ConnectItem → Exec W (List OpItem)
    unfolding is_listed with_item
    prune_and_hydrate client [] = pure []
    prune_and_hydrate client (o ∷ overviews) =
        if is_listed o
        then (do
          item ←
              on_error (wrapf "unable to get item with ID %#v from vault with ID %#v: %w")
                (client.get_item_by_uuid o.id k.base.vault_id)
          rest ← prune_and_hydrate client overviews
          pure (with_item item rest))
        else prune_and_hydrate client overviews

    pub op_item : ConnectClient W → Bytes → Exec W OpItem
    op_item client key = do
      overviews ←
          on_error (wrapf "unable to get item overviews with title %#v from vault with ID %#v: %w")
            (client.get_items_by_title (title_from_key k.base key) k.base.vault_id)
      items ← prune_and_hydrate client overviews
      lift (single items)

    pub get : Bytes → Exec W Item
    get key = do
      client ← initialize_op_connect_client
      item ← op_item client key
      value ← lift (first_value item.fields)
      lift (json.decode value)

    pub get_metadata : Bytes → Exec W Metadata
    get_metadata key = pure (record { item = none; modification_time = 0 })

    -- The item to create, or to put in place of the one with that ID.
    pub connect_item : Bytes → Bytes → Bytes → Bytes → ℕ → ConnectItem
    connect_item id field_id title value updated_at = record {
      id = id;
      title = title;
      category = sdk.api_credential;
      vault_id = k.base.vault_id;
      tags = k.base.item_tag ∷ [];
      fields =
          record {
            id = field_id;
            field_type = sdk.field_type_concealed;
            label = k.base.item_field_title;
            value = value;
          }
          ∷ [];
      updated_at = updated_at;
    }

    create : ConnectClient W → Bytes → Bytes → Exec W Unit
    unfolding connect_item
    create client title value =
        on_error (wrapf "unable to create item with title %#v in vault with ID %#v: %w")
          (client.create_item (connect_item [] [] title value 0) k.base.vault_id)

    -- `opItem.Fields[0].ID`.
    first_id : List OpField → Result Bytes
    first_id [] = err (message "index out of range")
    first_id (f ∷ fields) = ok f.id

    update : ConnectClient W → OpItem → Bytes → Bytes → Exec W Unit
    unfolding connect_item first_id
    update client found title value = do
      field_id ← lift (first_id found.fields)
      (λ w.
          let (now, w₁) = sdk.now w in
          on_error (wrapf "unable to update item with title %#v in vault with ID %#v: %w")
            (client.update_item (connect_item found.id field_id title value now) k.base.vault_id)
            w₁)

    set_found : ConnectClient W → Item → Result OpItem → Exec W Unit
    unfolding create update
    set_found client item (ok found) = do
      value ← lift (json.encode item)
      update client found (title_from_key k.base item.key) value
    set_found client item (err e) = if not (is e err_key_not_found) then raise e else (do
      value ← lift (json.encode item)
      create client (title_from_key k.base item.key) value)

    pub set : Item → Exec W Unit
    unfolding set_found
    set item = do
      client ← initialize_op_connect_client
      r ← attempt (op_item client item.key)
      set_found client item r

    pub remove : Bytes → Exec W Unit
    remove key = do
      client ← initialize_op_connect_client
      item ← op_item client key
      on_error (wrapf "unable to delete item with ID %#v in vault with ID %#v: %w")
          (client.delete_item_by_id item.id k.base.vault_id)

    pub op_items : ConnectClient W → Exec W (List OpItem)
    op_items client = do
      overviews ←
          on_error (wrapf "unable to get item overviews from vault with ID %#v: %w")
            (client.get_items k.base.vault_id)
      prune_and_hydrate client overviews

    pub keys : Exec W (List Bytes)
    keys = do
      client ← initialize_op_connect_client
      items ← op_items client
      lift (keys_of_items k.base items)

    abbrev pub op_connect_ring : Keyring W
    op_connect_ring = record {
      get = get;
      get_metadata = get_metadata;
      set = set;
      remove = remove;
      keys = keys;
    }
