-- ===== src/WinCred.antt =====
-- wincred.go: items as generic credentials under "<prefix>:<service>:<key>".
pub mod Laws
pub mod Services
use keyring.Prelude.{
  Bytes, codes, List, [], ◌∷◌, ◌++◌, has_prefix, trim_prefix, or_default, if◌then◌else◌,
}
use keyring.Errors.{Error, sentinel, err_key_not_found, err_metadata_not_supported, eq_errno}
use keyring.Exec.{Exec, Result, ok, err, pure, raise, attempt, on_error, ◌>>=◌, ◌>>◌}
use keyring.Api.{Item, Metadata, Keyring, Config, plain_item}
use keyring.Credentials.{Credentials, element_not_found}

pub record WindowsKeyring : Type 0 where
  pub name : Bytes
  pub prefix : Bytes

-- The opener in `init`, which cannot fail.
pub open_win_cred : {W : Type 0} → Config W → WindowsKeyring
open_win_cred cfg = record {
  name = or_default cfg.service_name (codes "default");
  prefix = or_default cfg.win_cred_prefix (codes "keyring");
}

unfoldable pub credential_name : WindowsKeyring → Bytes → Bytes
credential_name k key = k.prefix ++ (codes ":" ++ (k.name ++ (codes ":" ++ key)))

-- `if err == errElementNotFound { return ErrKeyNotFound }; return err`.
not_found : Error → Error
not_found e = if eq_errno e element_not_found then sentinel err_key_not_found else e

-- The names that have the prefix, without it.
unfoldable pub names_under : Bytes → List Bytes → List Bytes
names_under prefix [] = []
names_under prefix (t ∷ ts) =
    let rest = names_under prefix ts in
    if has_prefix t prefix then trim_prefix t prefix ∷ rest else rest

listed : Bytes → Result (List Bytes) → List Bytes
listed prefix (ok names) = names_under prefix names
listed prefix (err e) = []

module _ {W : Type 0} (api : Credentials W) (k : WindowsKeyring) where
  pub get : Bytes → Exec W Item
  unfolding not_found
  get key = do
    blob ← on_error not_found (api.get_generic_credential (credential_name k key))
    pure (plain_item key blob)

  pub get_metadata : Bytes → Exec W Metadata
  get_metadata key = raise (sentinel err_metadata_not_supported)

  pub set : Item → Exec W Unit
  set item = api.write (credential_name k item.key) item.content

  pub remove : Bytes → Exec W Unit
  unfolding not_found
  remove key = do
    blob ← on_error not_found (api.get_generic_credential (credential_name k key))
    api.delete (credential_name k key)

  -- An error of `List` is passed over.
  pub keys : Exec W (List Bytes)
  unfolding listed names_under
  keys = do names ← attempt api.list; pure (listed (credential_name k []) names)

  abbrev pub win_cred_ring : Keyring W
  win_cred_ring = record {
    get = get;
    get_metadata = get_metadata;
    set = set;
    remove = remove;
    keys = keys;
  }
