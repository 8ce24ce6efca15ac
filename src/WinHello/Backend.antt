-- ===== src/WinHello/Backend.antt =====
-- winhello/backend.go: items encrypted with a Windows Hello key, in the credential manager.
pub mod Reads
pub mod Failures
pub mod Writes
use keyring.Prelude.{
  ℕ, Bytes, codes, Option, none, some, List, [], ◌++◌, or_default, is_empty, ◌||◌, if◌then◌else◌,
}
use keyring.Errors.{
  Error, sentinel, wrapf, is, winhello_err_key_not_found, err_passport_key_not_found,
}
use keyring.Exec.{Exec, Result, ok, err, on_error, ◌>>=◌, ◌>>◌}
use keyring.Credentials.{Credentials}
use keyring.WinHello.Envelope.{EnvelopeCodec}
use keyring.WinHello.Crypto.{
  KeyWrapper, Cryptography, AadCodec, winhello_aad, encrypt_envelope, decrypt_envelope,
}
use keyring.WinHello.Store.{read, write, delete, store_keys, store_service_name}
use keyring.WinHello.Window.{Ask}

-- The function variables: `ensurePassportKeyFunc`, `openPassportKeyFunc` and
-- `winHelloParentHWNDFunc`.
pub record Hooks (W : Type 0) : Type 0 where
  pub ensure_passport_key : Bytes → ℕ → Exec W (KeyWrapper W)
  pub open_passport_key : Bytes → ℕ → Exec W (KeyWrapper W)
  pub parent_hwnd : Ask W ℕ

-- What of a `Backend` never changes.
pub record Backend : Type 0 where
  pub service_name : Bytes
  pub logical_name : Bytes
  pub key_name : Bytes

-- A backend's `wrapper` field, nil until a key was opened, beside the world.
pub record Session (W : Type 0) : Type 0 where
  pub wrapper : Option (KeyWrapper W)
  pub world : W

-- An action of the world within a session.
unfoldable pub outside : {W A : Type 0} → Exec W A → Exec (Session W) A
outside m s = let (r, w) = m s.world in (r, record s { world = w })

abbrev pub passport_default_logical_name : Bytes
passport_default_logical_name = codes "keyring-winhello-v1"

-- `New`, given what `winHelloPassportKeyName` returned for the default logical name.
pub new_backend : Bytes → Result Bytes → Result Backend
new_backend service_name (ok key_name) = ok (record {
  service_name = store_service_name service_name;
  logical_name = passport_default_logical_name;
  key_name = key_name;
})
new_backend service_name (err e) = err e

pub use_context : Bytes → Bytes → Bytes
use_context service_name key =
    let service = or_default service_name (codes "default") in
    if is_empty key
    then codes "Unlock keyring secret for " ++ service
    else codes "Unlock keyring secret for " ++ (key ++ (codes " at " ++ service))

-- `wrapExistingItemPassportKeyError`.
unfoldable pub existing_item_passport_key_error : Error → Error
existing_item_passport_key_error e =
    if is e winhello_err_key_not_found || is e err_passport_key_not_found
    then wrapf "open winhello Passport key for existing item %q: %w"
        (sentinel err_passport_key_not_found)
    else wrapf "open winhello Passport key for existing item %q: %w" e

module _ {W : Type 0} (hooks : Hooks W) (b : Backend) where
  -- A wrapper that was opened is kept.
  remember : KeyWrapper W → Exec (Session W) (KeyWrapper W)
  remember wrapper s = (ok wrapper, record s { wrapper = some wrapper })

  obtain :
      (Bytes → ℕ → Exec W (KeyWrapper W)) → Option (KeyWrapper W) → Exec (Session W) (KeyWrapper W)
  obtain func (some wrapper) s = (ok wrapper, s)
  obtain func none s =
      let (hwnd, w) = hooks.parent_hwnd s.world in
      (do wrapper ← outside (func b.logical_name hwnd); remember wrapper) (record s { world = w })

  unfoldable pub ensure_wrapper : Exec (Session W) (KeyWrapper W)
  unfolding obtain outside remember
  ensure_wrapper s = obtain hooks.ensure_passport_key s.wrapper s

  unfoldable pub open_wrapper : Exec (Session W) (KeyWrapper W)
  unfolding obtain outside remember
  open_wrapper s = obtain hooks.open_passport_key s.wrapper s

module _ {W Block Gcm : Type 0} (c : Cryptography W Block Gcm) (json : EnvelopeCodec)
    (aad_json : AadCodec) (api : Credentials W) (hooks : Hooks W) (b : Backend) where
  decrypt_item : Bytes → Bytes → KeyWrapper W → Exec (Session W) Bytes
  decrypt_item key encoded wrapper = on_error (wrapf "decrypt winhello item %q: %w") (
      outside (
        decrypt_envelope c json encoded (winhello_aad aad_json b.service_name key) b.key_name
          (some wrapper) (use_context b.service_name key)))

  unfoldable pub get : Bytes → Exec (Session W) Bytes
  unfolding outside decrypt_item
  get key = do
    encoded ← on_error (wrapf "read winhello item %q: %w") (outside (read api b.service_name key))
    wrapper ← on_error existing_item_passport_key_error (open_wrapper hooks b)
    decrypt_item key encoded wrapper

  encrypt_item : Bytes → Bytes → KeyWrapper W → Exec (Session W) Bytes
  encrypt_item key plaintext wrapper = on_error (wrapf "encrypt winhello item %q: %w") (
      outside (
        encrypt_envelope c json plaintext (winhello_aad aad_json b.service_name key) b.key_name
          (some wrapper)))

  unfoldable pub set : Bytes → Bytes → Exec (Session W) Unit
  unfolding outside encrypt_item
  set key plaintext = do
    wrapper ← on_error (wrapf "prepare winhello Passport key for %q: %w") (ensure_wrapper hooks b)
    encoded ← encrypt_item key plaintext wrapper
    on_error (wrapf "write winhello item %q: %w") (outside (write api b.service_name key encoded))

  unfoldable pub remove : Bytes → Exec (Session W) Unit
  unfolding outside
  remove key =
      on_error (wrapf "remove winhello item %q: %w") (outside (delete api b.service_name key))

  unfoldable pub backend_keys : Exec (Session W) (List Bytes)
  unfolding outside
  backend_keys =
      on_error (wrapf "list winhello items: %w") (outside (store_keys api b.service_name))
