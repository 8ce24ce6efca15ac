-- ===== src/WinHello/Ring.antt =====
-- The Windows Hello backend behind the interface (winhello.go): removal, and absent items.
use keyring.Prelude.{◌≡◌, Bytes, Option, none, arith, list_eq, nat_eq, is_some, if◌then◌else◌}
use keyring.Errors.{Error, sentinel, is, err_key_not_found}
use keyring.Exec.{ok, err}
use keyring.Credentials.{Credentials, IsManager}
use keyring.WinHello.Envelope.{EnvelopeCodec}
use keyring.WinHello.Crypto.{Cryptography, AadCodec}
use keyring.WinHello.Store.Laws.{same_key, envelope_at, delete_result, envelope_at-delete}
use keyring.WinHello.Backend
use keyring.WinHello.Backend.{Hooks, Backend, Session, outside}
use keyring.WinHello.Backend.Reads.{get_absent}
use keyring.WinHello.{get, remove}

module _ {W Block Gcm : Type 0} (c : Cryptography W Block Gcm) (json : EnvelopeCodec)
    (aad_json : AadCodec) (api : Credentials W) (hooks : Hooks W) (b : Backend)
    (blob : W → Bytes → Option Bytes) (refused : Bytes → Option Error) {fold : Bytes → Bytes}
    (manager : (w : W) → IsManager api fold blob refused w) where
  pub get_missing :
      (key : Bytes) (s : Session W)
      → envelope_at api blob refused manager b.service_name s.world key ≡ none
      → (get c json aad_json api hooks b key s).0 ≡ err (sentinel err_key_not_found)
  unfolding get is
  get_missing key s h =
      ground (arith, get_absent c json aad_json api hooks b blob refused manager key s h)

  pub remove_result :
      (key : Bytes) (s : Session W)
      → (remove c json aad_json api hooks b key s).0 ≡ (
          if is_some (envelope_at api blob refused manager b.service_name s.world key)
          then ok tt
          else err (sentinel err_key_not_found))
  unfolding remove Backend.remove outside is
  remove_result key s =
      ground (arith, delete_result api blob refused manager b.service_name s.world key)

  pub remove_envelope :
      (key j : Bytes) (s : Session W)
      → envelope_at api blob refused manager b.service_name
          (remove c json aad_json api hooks b key s).1.world
          j
        ≡ (if same_key fold b.service_name key j
            then none
            else envelope_at api blob refused manager b.service_name s.world j)
  unfolding remove Backend.remove outside
  remove_envelope key j s = envelope_at-delete api blob refused manager b.service_name s.world key j
