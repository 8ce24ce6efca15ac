-- ===== src/WinHello/Backend/Reads.antt =====
-- What `Get` (winhello/backend.go) reports of an item that is absent, present or moved.
use keyring.Prelude.{
  ◌≡◌, sym, ◌∙◌, Bytes, Bool, true, false, Option, none, some, arith, is_empty, list_eq, nat_eq,
}
use keyring.Errors.{Error, sentinel, wrapf, winhello_err_key_not_found, err_aad_mismatch}
use keyring.Exec.{ok, err}
use keyring.Credentials.{Credentials, IsManager}
use keyring.WinHello.Envelope.{Envelope, EnvelopeCodec, parse_envelope}
use keyring.WinHello.Crypto.{KeyWrapper, Cryptography, AadCodec, AadData, winhello_aad}
use keyring.WinHello.Crypto.Rejection.{
  decrypt_envelope_mismatch, is_empty-winhello_aad, winhello_aad-injective,
}
use keyring.WinHello.Store.{read}
use keyring.WinHello.Store.Laws.{envelope_at, read_result}
use keyring.WinHello.Backend.{Hooks, Backend, Session, outside, use_context, get, decrypt_item}
use keyring.WinHello.Backend.Writes.{open_wrapper_of_some}

module _ {W Block Gcm : Type 0} (c : Cryptography W Block Gcm) (json : EnvelopeCodec)
    (aad_json : AadCodec) (api : Credentials W) (hooks : Hooks W) (b : Backend)
    (blob : W → Bytes → Option Bytes) (refused : Bytes → Option Error) {fold : Bytes → Bytes}
    (manager : (w : W) → IsManager api fold blob refused w) where
  -- Without an envelope `Get` says so, and the Windows Hello key is not touched.
  pub get_absent :
      (key : Bytes) (s : Session W)
      → envelope_at api blob refused manager b.service_name s.world key ≡ none
      → get c json aad_json api hooks b key s ≡ (
        err (wrapf "read winhello item %q: %w" (sentinel winhello_err_key_not_found)),
        record s { world = (read api b.service_name key s.world).1 },
      )
  unfolding get outside
  get_absent key s h =
      ground (arith, read_result api blob refused manager b.service_name s.world key)

  -- An envelope that was made for another service or key is turned down with an AAD mismatch, and
  -- nothing happens beyond the read: the user is not asked. It is assumed that the JSON of the AAD
  -- is never empty and tells texts apart, and that the session holds a key.
  pub get_moved :
      (is_text : Bytes → Bool) (service i key : Bytes) (s : Session W) (wrapper : KeyWrapper W)
      (encoded : Bytes) (e : Envelope)
      → ((x : AadData) → is_empty (aad_json x) ≡ false)
      → ((x y : AadData)
          → is_text x.service_name ≡ true
          → is_text y.service_name ≡ true
          → is_text x.item_key ≡ true
          → is_text y.item_key ≡ true
          → aad_json x ≡ aad_json y
          → x ≡ y)
      → is_text service ≡ true
      → is_text b.service_name ≡ true
      → is_text i ≡ true
      → is_text key ≡ true
      → envelope_at api blob refused manager b.service_name s.world key ≡ some encoded
      → parse_envelope json encoded ≡ ok e
      → e.key_name ≡ b.key_name
      → is_empty b.key_name ≡ false
      → e.aad ≡ winhello_aad aad_json service i
      → ¬ ((service ≡ b.service_name) × (i ≡ key))
      → s.wrapper ≡ some wrapper
      → get c json aad_json api hooks b key s ≡ (
        err (wrapf "decrypt winhello item %q: %w" (sentinel err_aad_mismatch)),
        record s { world = (read api b.service_name key s.world).1 },
      )
  unfolding get outside decrypt_item
  get_moved is_text service i key s wrapper encoded e has_aad injective t₁ t₂ t₃ t₄ there parsed
        same named made moved cached =
      let w = (read api b.service_name key s.world).1 in
      let aad = winhello_aad aad_json b.service_name key in
      let differ : ¬ (e.aad ≡ aad) = λ x. moved (
        winhello_aad-injective is_text aad_json service i b.service_name key injective t₁ t₂ t₃ t₄
          (sym made ∙ x)) in
      ground (
        arith,
        read_result api blob refused manager b.service_name s.world key,
        there,
        open_wrapper_of_some hooks b (record s { world = w }) wrapper cached,
        decrypt_envelope_mismatch c json encoded aad b.key_name (use_context b.service_name key)
            wrapper w e parsed same named
            (is_empty-winhello_aad aad_json b.service_name key has_aad) differ,
      )
