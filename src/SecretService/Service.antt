-- ===== src/SecretService/Service.antt =====
-- The part of github.com/byteness/go-libsecret that the program uses, as an interface. Sessions,
-- collections and items go by their D-Bus paths.
use keyring.Prelude.{Bytes, Bool, List}
use keyring.Exec.{Exec}

-- `libsecret.NewSecret`.
pub record Secret : Type 0 where
  pub session : Bytes
  pub parameters : Bytes
  pub value : Bytes
  pub content_type : Bytes

pub record Service (W : Type 0) : Type 0 where
  -- `Service.Open`
  pub open_session : Exec W Bytes
  pub collections : Exec W (List Bytes)
  pub create_collection : Bytes → Exec W Bytes
  pub unlock : Bytes → Exec W Unit
  pub search_items : Bytes → Bytes → Exec W (List Bytes)
  pub items : Bytes → Exec W (List Bytes)
  pub create_item : Bytes → Bytes → Secret → Bool → Exec W Bytes
  pub collection_locked : Bytes → Exec W Bool
  pub delete_collection : Bytes → Exec W Unit
  pub item_locked : Bytes → Exec W Bool
  pub item_label : Bytes → Exec W Bytes
  pub get_secret : Bytes → Bytes → Exec W Secret
  pub delete_item : Bytes → Exec W Unit
