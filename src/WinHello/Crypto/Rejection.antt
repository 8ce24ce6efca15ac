-- ===== src/WinHello/Crypto/Rejection.antt =====
-- What `decryptWinHelloEnvelope` (winhello/crypto.go) turns down before the key is used.
use keyring.Prelude.{
  ◌≡◌, refl, ap, inl, inr, Bytes, Bool, true, false, Option, none, some, is_empty, list_eq, nat_eq,
  arith,
}
use keyring.Errors.{sentinel, err_aad_mismatch}
use keyring.Exec.{ok, err, is_ok, Result-cases}
use keyring.WinHello.Envelope.{Envelope, EnvelopeCodec, parse_envelope}
use keyring.WinHello.Crypto.{
  KeyWrapper, Cryptography, AadCodec, AadData, winhello_aad, check_envelope, decrypt_envelope,
}

-- The stored bytes are a valid envelope for that key name and that AAD.
pub record Matches (json : EnvelopeCodec) (encoded aad key_name : Bytes) : Type 0 where
  pub envelope : Envelope
  pub parsed : parse_envelope json encoded ≡ ok envelope
  pub same_name : envelope.key_name ≡ key_name
  pub same_aad : envelope.aad ≡ aad

module _ {W Block Gcm : Type 0} (c : Cryptography W Block Gcm) (json : EnvelopeCodec) where
  check_rejects :
      (aad key_name context : Bytes) (wrapper : KeyWrapper W) (w : W) (e : Envelope)
      → ¬ ((e.key_name ≡ key_name) × (e.aad ≡ aad))
      → (is_ok (check_envelope c json aad key_name wrapper context e w).0 ≡ false)
        × ((check_envelope c json aad key_name wrapper context e w).1 ≡ w)
  unfolding check_envelope
  check_rejects aad key_name context wrapper w e differ = ground arith

  -- Unless the stored bytes are a valid envelope for the expected key name and AAD, decryption
  -- fails and leaves the world as it was: the Passport key is not asked for anything.
  pub decrypt_envelope_rejects :
      (encoded aad key_name context : Bytes) (wrapper : Option (KeyWrapper W)) (w : W)
      → ¬ Matches json encoded aad key_name
      → (is_ok (decrypt_envelope c json encoded aad key_name wrapper context w).0 ≡ false)
        × ((decrypt_envelope c json encoded aad key_name wrapper context w).1 ≡ w)
  unfolding decrypt_envelope
  decrypt_envelope_rejects encoded aad key_name context none w differ = (refl, refl)
  decrypt_envelope_rejects encoded aad key_name context (some wrapper) w differ =
      elim (Result-cases (parse_envelope json encoded)) [
        | inl (e, h) ↦ ground (
          arith,
          h,
          check_rejects aad key_name context wrapper w e (λ same.
              differ (record { envelope = e; parsed = h; same_name = same.0; same_aad = same.1 })),
        )
        | inr (e, h) ↦ ground (arith, h)
      ]

  -- A valid envelope for that key name and another AAD is turned down as such.
  pub decrypt_envelope_mismatch :
      (encoded aad key_name context : Bytes) (wrapper : KeyWrapper W) (w : W) (e : Envelope)
      → parse_envelope json encoded ≡ ok e
      → e.key_name ≡ key_name
      → is_empty key_name ≡ false
      → is_empty aad ≡ false
      → ¬ (e.aad ≡ aad)
      → decrypt_envelope c json encoded aad key_name (some wrapper) context w
        ≡ (err (sentinel err_aad_mismatch), w)
  unfolding decrypt_envelope
  decrypt_envelope_mismatch encoded aad key_name context wrapper w e parsed same named has_aad
        differ =
      ground (arith, parsed)

pub is_empty-winhello_aad :
    (json : AadCodec) (service key : Bytes)
    → ((x : AadData) → is_empty (json x) ≡ false)
    → is_empty (winhello_aad json service key) ≡ false
unfolding winhello_aad
is_empty-winhello_aad json service key h = h _

-- Where JSON tells texts apart, the AAD fixes the service and the key.
pub winhello_aad-injective :
    (is_text : Bytes → Bool) (json : AadCodec) (service key service' key' : Bytes)
    → ((x y : AadData)
        → is_text x.service_name ≡ true
        → is_text y.service_name ≡ true
        → is_text x.item_key ≡ true
        → is_text y.item_key ≡ true
        → json x ≡ json y
        → x ≡ y)
    → is_text service ≡ true
    → is_text service' ≡ true
    → is_text key ≡ true
    → is_text key' ≡ true
    → winhello_aad json service key ≡ winhello_aad json service' key'
    → (service ≡ service') × (key ≡ key')
unfolding winhello_aad
winhello_aad-injective is_text json service key service' key' injective t₁ t₂ t₃ t₄ h =
    let same = injective _ _ t₁ t₂ t₃ t₄ h in
    (ap (λ (x : AadData). x.service_name) same, ap (λ (x : AadData). x.item_key) same)
