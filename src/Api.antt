-- ===== src/Api.antt =====
-- keyring.go and config.go: items, the `Keyring` interface, the configuration and the names of the
-- backends.
use keyring.Prelude.{ℕ, Bytes, codes, Bool, Option, List, []}
use keyring.Prelude.Int.{ℤ}
use keyring.Exec.{Exec, Result}

pub record Item : Type 0 where
  pub key : Bytes
  pub content : Bytes
  pub label : Bytes
  pub description : Bytes
  pub keychain_not_trust_application : Bool
  pub keychain_not_synchronizable : Bool

-- The embedded `*Item`, which may be nil, and the time in nanoseconds.
pub record Metadata : Type 0 where
  pub item : Option Item
  pub modification_time : ℕ

-- `json.Marshal` and `json.Unmarshal` at `Item`.
pub record ItemCodec : Type 0 where
  pub encode : Item → Result Bytes
  pub decode : Bytes → Result Item

-- An item with a key and data alone, as a literal `Item{Key: …, Data: …}` builds it.
abbrev pub plain_item : Bytes → Bytes → Item
plain_item key content = record {
  key = key;
  content = content;
  label = [];
  description = [];
  keychain_not_trust_application = Bool.false;
  keychain_not_synchronizable = Bool.false;
}

-- The interface that every backend implements, over the state `W` of the backend and its world.
pub record Keyring (W : Type 0) : Type 0 where
  pub get : Bytes → Exec W Item
  pub get_metadata : Bytes → Exec W Metadata
  pub set : Item → Exec W Unit
  pub remove : Bytes → Exec W Unit
  pub keys : Exec W (List Bytes)

abbrev pub BackendType : Type 0
BackendType = Bytes

abbrev pub secret_service_backend : BackendType
secret_service_backend = codes "secret-service"

abbrev pub keychain_backend : BackendType
keychain_backend = codes "keychain"

abbrev pub key_ctl_backend : BackendType
key_ctl_backend = codes "keyctl"

abbrev pub k_wallet_backend : BackendType
k_wallet_backend = codes "kwallet"

abbrev pub win_cred_backend : BackendType
win_cred_backend = codes "wincred"

abbrev pub win_hello_backend : BackendType
win_hello_backend = codes "winhello"

abbrev pub file_backend : BackendType
file_backend = codes "file"

abbrev pub pass_backend : BackendType
pass_backend = codes "pass"

abbrev pub passage_backend : BackendType
passage_backend = codes "passage"

abbrev pub op_backend : BackendType
op_backend = codes "op"

abbrev pub op_connect_backend : BackendType
op_connect_backend = codes "op-connect"

abbrev pub op_desktop_backend : BackendType
op_desktop_backend = codes "op-desktop"

-- `PromptFunc`.
abbrev pub Prompt : Type 0 → Type 0
Prompt W = Bytes → Exec W Bytes

-- A slice or a function that may be nil is an `Option`; a duration counts nanoseconds.
pub record Config (W : Type 0) : Type 0 where
  pub allowed_backends : Option (List BackendType)
  pub service_name : Bytes
  pub keychain_name : Bytes
  pub keychain_trust_application : Bool
  pub keychain_synchronizable : Bool
  pub keychain_accessible_when_unlocked : Bool
  pub keychain_password_func : Option (Prompt W)
  pub file_password_func : Option (Prompt W)
  pub file_dir : Bytes
  pub key_ctl_scope : Bytes
  pub key_ctl_perm : ℕ
  pub k_wallet_app_id : Bytes
  pub k_wallet_folder : Bytes
  pub lib_secret_collection_name : Bytes
  pub pass_dir : Bytes
  pub pass_cmd : Bytes
  pub pass_prefix : Bytes
  pub win_cred_prefix : Bytes
  pub use_biometrics : Bool
  pub touch_id_account : Bytes
  pub touch_id_service : Bytes
  pub op_timeout : ℤ
  pub op_vault_id : Bytes
  pub op_item_title_prefix : Bytes
  pub op_item_tag : Bytes
  pub op_item_field_title : Bytes
  pub op_connect_host : Bytes
  pub op_connect_token_env : Bytes
  pub op_token_env : Bytes
  pub op_token_func : Option (Prompt W)
  pub op_desktop_account_id : Bytes
