-- ===== src/WinHello/Store.antt =====
-- winhello/store.go: envelopes as generic credentials under "keyring-winhello:<service>:<key>".
-- The adapters there pass the calls on to the credential manager, and a blob is copied on its way,
-- so a list stands for it.
pub mod Laws
use keyring.Prelude.{Bytes, codes, List, [], ◌++◌, if◌then◌else◌, or_default}
use keyring.Prelude.Sort.{sort_strings}
use keyring.Errors.{Error, sentinel, winhello_err_key_not_found, is_errno}
use keyring.Exec.{Exec, pure, on_error, ◌>>=◌, ◌>>◌}
use keyring.Credentials.{Credentials, element_not_found}
use keyring.WinCred.{names_under}

-- `newWinHelloWinCredStore` keeps this of the service name.
pub store_service_name : Bytes → Bytes
store_service_name service_name = or_default service_name (codes "default")

unfoldable pub store_credential_name : Bytes → Bytes → Bytes
store_credential_name service key =
    codes "keyring-winhello" ++ (codes ":" ++ (service ++ (codes ":" ++ key)))

-- `if errors.Is(err, errElementNotFound) { return ErrKeyNotFound }; return err`.
unfoldable pub store_error : Error → Error
store_error e = if is_errno e element_not_found then sentinel winhello_err_key_not_found else e

module _ {W : Type 0} (api : Credentials W) (service : Bytes) where
  unfoldable pub read : Bytes → Exec W Bytes
  unfolding store_error
  read key = on_error store_error (api.get_generic_credential (store_credential_name service key))

  unfoldable pub write : Bytes → Bytes → Exec W Unit
  write key blob = api.write (store_credential_name service key) blob

  unfoldable pub delete : Bytes → Exec W Unit
  unfolding store_error
  delete key = do
    cred ← on_error store_error (api.get_generic_credential (store_credential_name service key))
    on_error store_error (api.delete (store_credential_name service key))

  unfoldable pub store_keys : Exec W (List Bytes)
  store_keys = do
    names ← api.list
    pure (sort_strings (names_under (store_credential_name service []) names))
