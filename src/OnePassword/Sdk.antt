-- ===== src/OnePassword/Sdk.antt =====
-- The part of github.com/1password/onepassword-sdk-go that the program uses, as an interface: the
-- values and calls of `OPStandardClientAPI` (opstandard.go), down to the fields that are read or
-- written. A call may fail, also because its time is over.
use keyring.Prelude.{ℕ, Bytes, List}
use keyring.Exec.{Exec}
use keyring.WinHello.Window.{Ask}

pub record OpField : Type 0 where
  pub id : Bytes
  pub title : Bytes
  pub field_type : Bytes
  pub value : Bytes

pub record OpItem : Type 0 where
  pub id : Bytes
  pub title : Bytes
  pub category : Bytes
  pub tags : List Bytes
  pub fields : List OpField
  pub updated_at : ℕ

pub record Overview : Type 0 where
  pub id : Bytes
  pub tags : List Bytes
  pub state : Bytes
  pub category : Bytes

pub record CreateParams : Type 0 where
  pub category : Bytes
  pub vault_id : Bytes
  pub title : Bytes
  pub fields : List OpField
  pub tags : List Bytes

pub record Client (W : Type 0) : Type 0 where
  -- `ItemStateActive`, `ItemCategoryAPICredentials`, `ItemFieldTypeConcealed`
  pub item_state_active : Bytes
  pub item_category_api_credentials : Bytes
  pub item_field_type_concealed : Bytes
  pub create : CreateParams → Exec W Unit
  pub delete : Bytes → Bytes → Exec W Unit
  pub get : Bytes → Bytes → Exec W OpItem
  -- with the filter for active items
  pub list : Bytes → Exec W (List Overview)
  pub put : OpItem → Exec W Unit
  -- `time.Now`
  pub now : Ask W ℕ
