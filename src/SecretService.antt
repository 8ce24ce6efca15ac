-- ===== src/SecretService.antt =====
-- secretservice.go: items as JSON in a collection of the Secret Service.
pub mod Paths
pub mod Service
pub mod Assumed
pub mod Unlocking
pub mod Laws
use keyring.Prelude.{
  Bytes, codes, true, Option, none, some, List, [], ◌∷◌, ◌++◌, or_default, ◌==◌, list_eq, nat_eq,
  if◌then◌else◌, not,
}
use keyring.Errors.{
  Error, sentinel, eq_sentinel, err_key_not_found, err_metadata_needs_credentials,
  err_collection_not_found,
}
use keyring.Exec.{Exec, Result, ok, err, pure, raise, lift, attempt, on_error, ◌>>=◌, ◌>>◌}
use keyring.Exec.Object.{Object, outside, get_fields, put_fields}
use keyring.Api.{Item, Metadata, Keyring, Config, ItemCodec}
use keyring.SecretService.Paths.{decode_keyring_string}
use keyring.SecretService.Service.{Service as LibSecret}

-- The collection is nil until it is found or made, the session empty until one is opened. The name
-- and the service never change.
pub record SecretsKeyring : Type 0 where
  pub collection : Option Bytes
  pub session : Bytes

-- `libsecret.DBusPath`.
abbrev pub dbus_path : Bytes
dbus_path = codes "/org/freedesktop/secrets"

-- The first of the collections whose path is that one.
unfoldable pub find_collection : Bytes → List Bytes → Option Bytes
find_collection path [] = none
find_collection path (c ∷ collections) =
    let rest = find_collection path collections in
    if decode_keyring_string c == path then some c else rest

-- An item whose label cannot be read is left out.
abbrev pub add_label : Result Bytes → List Bytes → List Bytes
add_label (ok label) labels = label ∷ labels
add_label (err e) labels = labels

module _ {W : Type 0} (service : LibSecret W) (json : ItemCodec) (name : Bytes) where
  abbrev State : Type 0
  State = Object SecretsKeyring W

  keep_collection : Option Bytes → Exec State Unit
  keep_collection none = pure tt
  keep_collection (some c) = do k ← get_fields; put_fields (record k { collection = some c })

  pub open_secrets : Exec State Unit
  unfolding find_collection keep_collection
  open_secrets = do
    session ← outside service.open_session
    k ← get_fields
    put_fields (record k { session = session })
    collections ← outside service.collections
    keep_collection (find_collection (dbus_path ++ (codes "/collection/" ++ name)) collections)

  -- `k.collection`, where it is not nil.
  collection_of : Option Bytes → Exec State Bytes
  collection_of none = raise (sentinel err_collection_not_found)
  collection_of (some c) = pure c

  pub open_collection : Exec State Bytes
  unfolding collection_of
  open_collection = do open_secrets; k ← get_fields; collection_of k.collection

  -- `if err == errCollectionNotFound { return …, e }`.
  unless_no_collection : Error → Error → Error
  unless_no_collection e other = if eq_sentinel other err_collection_not_found then e else other

  -- `items[0]`, unlocked if it is locked.
  pub unlock_item : Bytes → Exec State Unit
  unlock_item item = do
    locked ← outside (service.item_locked item)
    (if locked then outside (service.unlock item) else pure tt)

  get_first : List Bytes → Exec State Item
  unfolding unlock_item
  get_first [] = raise (sentinel err_key_not_found)
  get_first (item ∷ items) = do
    unlock_item item
    k ← get_fields
    secret ← outside (service.get_secret item k.session)
    lift (json.decode secret.value)

  pub get : Bytes → Exec State Item
  unfolding unless_no_collection get_first
  get key = do
    c ← on_error (unless_no_collection (sentinel err_key_not_found)) open_collection
    items ← outside (service.search_items c key)
    get_first items

  pub get_metadata : Bytes → Exec State Metadata
  get_metadata key = raise (sentinel err_metadata_needs_credentials)

  pub ensure_collection_unlocked : Bytes → Exec State Unit
  ensure_collection_unlocked c = do
    locked ← outside (service.collection_locked c)
    (if not locked then pure tt else outside (service.unlock c))

  -- The collection, made if it is nil.
  create_if_nil : Option Bytes → Exec State Bytes
  create_if_nil (some c) = pure c
  create_if_nil none = do
    c ← outside (service.create_collection name)
    k ← get_fields
    put_fields (record k { collection = some c })
    pure c

  pub set : Item → Exec State Unit
  unfolding create_if_nil ensure_collection_unlocked
  set item = do
    open_secrets
    k ← get_fields
    c ← create_if_nil k.collection
    ensure_collection_unlocked c
    content ← lift (json.encode item)
    created ← outside (
        service.create_item c item.key
          (record {
            session = k.session;
            parameters = [];
            value = content;
            content_type = codes "application/json";
          })
          true)
    pure tt

  remove_first : List Bytes → Exec State Unit
  unfolding unlock_item
  remove_first [] = pure tt
  remove_first (item ∷ items) = do unlock_item item; outside (service.delete_item item)

  pub remove : Bytes → Exec State Unit
  unfolding unless_no_collection remove_first
  remove key = do
    c ← on_error (unless_no_collection (sentinel err_key_not_found)) open_collection
    items ← outside (service.search_items c key)
    remove_first items

  labels_of : List Bytes → Exec State (List Bytes)
  labels_of [] = pure []
  labels_of (item ∷ items) = do
    label ← attempt (outside (service.item_label item))
    labels ← labels_of items
    pure (add_label label labels)

  listed : Bytes → Exec State (List Bytes)
  unfolding ensure_collection_unlocked labels_of
  listed c = do ensure_collection_unlocked c; items ← outside (service.items c); labels_of items

  none_listed : Error → Exec State (List Bytes)
  none_listed e = if eq_sentinel e err_collection_not_found then pure [] else raise e

  labels_in : Result Bytes → Exec State (List Bytes)
  unfolding listed none_listed
  labels_in (ok c) = listed c
  labels_in (err e) = none_listed e

  pub keys : Exec State (List Bytes)
  unfolding labels_in
  keys = do c ← attempt open_collection; labels_in c

  pub delete_collection : Exec State Unit
  delete_collection = do c ← open_collection; outside (service.delete_collection c)

  abbrev pub secret_service_ring : Keyring State
  secret_service_ring = record {
    get = get;
    get_metadata = get_metadata;
    set = set;
    remove = remove;
    keys = keys;
  }

-- The opener, given what `libsecret.NewService` returned; the name of the collection is the
-- configured one, or the service's.
module _ {W : Type 0} (json : ItemCodec) where
  pub collection_name : Config W → Bytes
  collection_name cfg =
      or_default cfg.lib_secret_collection_name
        (or_default cfg.service_name (codes "secret-service"))

  open_with : Result (LibSecret W) → Config W → W → Result (Unit {0}) × Object SecretsKeyring W
  unfolding collection_name
  open_with (ok service) cfg w =
      open_secrets service json (collection_name cfg)
        (record { fields = record { collection = none; session = [] }; world = w })
  open_with (err e) cfg w =
      (err e, record { fields = record { collection = none; session = [] }; world = w })

  pub open_secret_service :
      Exec W (LibSecret W) → Config W → W → Result (Unit {0}) × Object SecretsKeyring W
  unfolding open_with
  open_secret_service new_service cfg w =
      let (service, w₁) = new_service w in open_with service cfg w₁
