-- ===== src/WinHello.antt =====
-- winhello.go: the Windows Hello backend behind the `Keyring` interface.
pub mod Errors
pub mod Ring
pub mod Laws
pub mod Envelope
pub mod Crypto
pub mod Store
pub mod Window
pub mod Backend
pub mod PassportName
pub mod NCrypt
pub mod Passport
pub mod Working
pub mod Buffers
use keyring.Prelude.{Bytes, List, if◌then◌else◌}
use keyring.Errors.{
  Error, sentinel, is, err_key_not_found, winhello_err_key_not_found, err_metadata_not_supported,
}
use keyring.Exec.{Exec, Result, pure, raise, on_error, ◌>>=◌}
use keyring.Api.{Item, Metadata, Keyring, Config, plain_item}
use keyring.Credentials.{Credentials}
use keyring.WinHello.Envelope.{EnvelopeCodec}
use keyring.WinHello.Crypto.{Cryptography, AadCodec}
use keyring.WinHello.Backend.{Hooks, Backend as HelloBackend, Session, new_backend}

-- `errors.Is(err, winhelloimpl.ErrKeyNotFound)` becomes `ErrKeyNotFound`.
not_found : Error → Error
not_found e = if is e winhello_err_key_not_found then sentinel err_key_not_found else e

-- The opener, given what `winHelloPassportKeyName` returned for the default logical name.
new_win_hello_keyring : {W : Type 0} → Result Bytes → Config W → Result HelloBackend
new_win_hello_keyring key_name cfg = new_backend cfg.service_name key_name

module _ {W Block Gcm : Type 0} (c : Cryptography W Block Gcm) (json : EnvelopeCodec)
    (aad_json : AadCodec) (api : Credentials W) (hooks : Hooks W) (b : HelloBackend) where
  pub get : Bytes → Exec (Session W) Item
  unfolding not_found
  get key = do
    content ← on_error not_found (Backend.get c json aad_json api hooks b key)
    pure (plain_item key content)

  pub get_metadata : Bytes → Exec (Session W) Metadata
  get_metadata key = raise (sentinel err_metadata_not_supported)

  pub set : Item → Exec (Session W) Unit
  set item = Backend.set c json aad_json api hooks b item.key item.content

  pub remove : Bytes → Exec (Session W) Unit
  unfolding not_found
  remove key = on_error not_found (Backend.remove c json aad_json api hooks b key)

  pub keys : Exec (Session W) (List Bytes)
  keys = Backend.backend_keys c json aad_json api hooks b

  abbrev pub winhello_ring : Keyring (Session W)
  winhello_ring = record {
    get = get;
    get_metadata = get_metadata;
    set = set;
    remove = remove;
    keys = keys;
  }
