-- ===== src/WinHello/Backend/Failures.antt =====
-- The errors of `Get` (winhello/backend.go) for an item that is there.
use keyring.Prelude.{◌≡◌, Bytes, Option, some, arith}
use keyring.Errors.{Error, is}
use keyring.Exec.{Result, ok, err, on_error, rethrow}
use keyring.Credentials.{Credentials, IsManager}
use keyring.WinHello.Errors.{IsOtherResult, IsOtherResult-wrapf, >>=-IsOtherResult}
use keyring.WinHello.Envelope.{EnvelopeCodec}
use keyring.WinHello.Crypto.{KeyWrapper, Cryptography, AadCodec, winhello_aad}
use keyring.WinHello.Crypto.Failures.{IsQuiet, decrypt_envelope-IsOtherResult}
use keyring.WinHello.Store.{read}
use keyring.WinHello.Store.Laws.{envelope_at, read_result}
use keyring.WinHello.Backend.{
  Hooks, Backend, Session, outside, open_wrapper, use_context, get, decrypt_item,
  existing_item_passport_key_error,
}

existing_item_passport_key_error-IsOtherResult :
    {A : Type 0} (r : Result A) → IsOtherResult (rethrow existing_item_passport_key_error r)
unfolding existing_item_passport_key_error is
existing_item_passport_key_error-IsOtherResult (ok a) = tt
existing_item_passport_key_error-IsOtherResult (err e) = ground arith

opened :
    {A : Type 0} (r : Result A) {a : A}
    → rethrow existing_item_passport_key_error r ≡ ok a
    → r ≡ ok a
opened (ok a) h = h
opened (err e) h = cc

module _ {W Block Gcm : Type 0} (c : Cryptography W Block Gcm) (json : EnvelopeCodec)
    (aad_json : AadCodec) (api : Credentials W) (hooks : Hooks W) (b : Backend)
    (blob : W → Bytes → Option Bytes) (refused : Bytes → Option Error) {fold : Bytes → Bytes}
    (manager : (w : W) → IsManager api fold blob refused w) where
  read_present :
      (key encoded : Bytes) (w : W)
      → envelope_at api blob refused manager b.service_name w key ≡ some encoded
      → (read api b.service_name key w).0 ≡ ok encoded
  read_present key encoded w there =
      ground (arith, read_result api blob refused manager b.service_name w key)

  decrypt_item-IsOtherResult :
      (key encoded : Bytes) (wrapper : KeyWrapper W) (s : Session W)
      → IsQuiet c json wrapper
      → IsOtherResult (decrypt_item c json aad_json api hooks b key encoded wrapper s).0
  unfolding decrypt_item outside
  decrypt_item-IsOtherResult key encoded wrapper s q = IsOtherResult-wrapf _ _ (
      decrypt_envelope-IsOtherResult c json wrapper q encoded
        (winhello_aad aad_json b.service_name key) b.key_name (use_context b.service_name key)
        s.world)

  -- Where an envelope is stored, `Get` never says that the item is missing, also when the Windows
  -- Hello key is gone, or the envelope is damaged or of another item. It is assumed that no error
  -- of the libraries, and none of the key that is opened, is the backend's `ErrKeyNotFound`.
  pub get-IsOtherResult :
      (key encoded : Bytes) (s : Session W)
      → envelope_at api blob refused manager b.service_name s.world key ≡ some encoded
      → ((wrapper : KeyWrapper W)
          → (open_wrapper hooks b (record s { world = (read api b.service_name key s.world).1 })).0
            ≡ ok wrapper
          → IsQuiet c json wrapper)
      → IsOtherResult (get c json aad_json api hooks b key s).0
  unfolding get outside
  get-IsOtherResult key encoded s there quiet =
      let s₁ : Session W = record s { world = (read api b.service_name key s.world).1 } in
      rw (read_present key encoded s.world there) (
        >>=-IsOtherResult (on_error existing_item_passport_key_error (open_wrapper hooks b))
          (decrypt_item c json aad_json api hooks b key encoded) s₁
          (existing_item_passport_key_error-IsOtherResult (open_wrapper hooks b s₁).0)
          λ wrapper h.
            decrypt_item-IsOtherResult key encoded wrapper (open_wrapper hooks b s₁).1
              (quiet wrapper (opened (open_wrapper hooks b s₁).0 h)))
