-- ===== src/OnePassword/Connect/Sdk.antt =====
-- The part of github.com/1Password/connect-sdk-go that opconnect.go uses, as an interface: the
-- values and calls of `OPConnectClientAPI`, down to the fields that are read or written.
use keyring.Prelude.{ℕ, Bytes, List}
use keyring.Exec.{Exec}
use keyring.WinHello.Window.{Ask}

pub record ConnectField : Type 0 where
  pub id : Bytes
  pub field_type : Bytes
  pub label : Bytes
  pub value : Bytes

pub record ConnectItem : Type 0 where
  pub id : Bytes
  pub title : Bytes
  pub category : Bytes
  pub vault_id : Bytes
  pub tags : List Bytes
  pub fields : List ConnectField
  pub updated_at : ℕ

pub record ConnectClient (W : Type 0) : Type 0 where
  pub create_item : ConnectItem → Bytes → Exec W Unit
  pub delete_item_by_id : Bytes → Bytes → Exec W Unit
  pub get_item_by_uuid : Bytes → Bytes → Exec W ConnectItem
  pub get_items : Bytes → Exec W (List ConnectItem)
  pub get_items_by_title : Bytes → Bytes → Exec W (List ConnectItem)
  pub update_item : ConnectItem → Bytes → Exec W Unit

-- The constants of the library, and `time.Now`.
pub record ConnectSdk (W : Type 0) : Type 0 where
  pub api_credential : Bytes
  pub field_type_concealed : Bytes
  -- `OPStandardItemCategory` and `OPStandardItemFieldType`
  pub op_standard_item_category : Bytes
  pub op_standard_item_field_type : Bytes
  -- `connect.NewClient`
  pub new_client : Bytes → Bytes → ConnectClient W
  pub now : Ask W ℕ
