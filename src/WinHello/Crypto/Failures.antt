-- ===== src/WinHello/Crypto/Failures.antt =====
-- The errors of `decryptWinHelloEnvelope` (winhello/crypto.go).
use keyring.Prelude.{refl, subst, inl, inr, Bytes, some, list_eq, nat_eq, arith}
use keyring.Errors.{sentinel, is, err_unwrap_key, err_decrypt}
use keyring.Exec.{lift, on_error, Result-cases}
use keyring.WinHello.Errors.{IsOther, IsOtherResult, IsOtherResult-wrapf_both, >>=-IsOtherResult}
use keyring.WinHello.Envelope.{Envelope, EnvelopeCodec, parse_envelope}
use keyring.WinHello.Envelope.Failures.{parse_envelope-IsOtherResult}
use keyring.WinHello.Crypto.{
  KeyWrapper, Cryptography, open_envelope, check_envelope, decrypt_envelope, both,
}

-- None of the libraries' errors says that an item is missing.
pub record IsQuiet {W Block Gcm : Type 0} (c : Cryptography W Block Gcm) (json : EnvelopeCodec)
    (wrapper : KeyWrapper W) : Type 0 where
  pub decode : (x : Bytes) → IsOtherResult (json.decode x)
  pub new_cipher : (k : Bytes) → IsOtherResult (c.new_cipher k)
  pub new_gcm : (b : Block) → IsOtherResult (c.new_gcm b)
  pub unseal : (g : Gcm) (n x a : Bytes) → IsOtherResult (c.unseal g n x a)
  pub unwrap_key : (x context : Bytes) (w : W) → IsOtherResult (wrapper.unwrap_key x context w).0

module _ {W Block Gcm : Type 0} (c : Cryptography W Block Gcm) (json : EnvelopeCodec)
    (wrapper : KeyWrapper W) (q : IsQuiet c json wrapper) where
  unwrap-IsOther : IsOther (sentinel err_unwrap_key)
  unfolding is
  unwrap-IsOther = refl

  decrypt-IsOther : IsOther (sentinel err_decrypt)
  unfolding is
  decrypt-IsOther = refl

  open_envelope-IsOtherResult :
      (e : Envelope) (aad context : Bytes) (w : W)
      → IsOtherResult (open_envelope c json e aad wrapper context w).0
  unfolding open_envelope
  open_envelope-IsOtherResult e aad context w =
      >>=-IsOtherResult (on_error (both err_unwrap_key) (wrapper.unwrap_key e.wrapped_cek context))
        _ w (IsOtherResult-wrapf_both _ _ _ unwrap-IsOther (q.unwrap_key e.wrapped_cek context w))
        λ cek _.
          >>=-IsOtherResult (on_error (both err_decrypt) (lift (c.new_cipher cek))) _ _
            (IsOtherResult-wrapf_both _ _ _ decrypt-IsOther (q.new_cipher cek))
            λ block _.
              >>=-IsOtherResult (on_error (both err_decrypt) (lift (c.new_gcm block))) _ _
                (IsOtherResult-wrapf_both _ _ _ decrypt-IsOther (q.new_gcm block))
                λ gcm _.
                  IsOtherResult-wrapf_both _ _ _ decrypt-IsOther
                    (q.unseal gcm e.nonce e.ciphertext aad)

  check_envelope-IsOtherResult :
      (e : Envelope) (aad key_name context : Bytes) (w : W)
      → IsOtherResult (check_envelope c json aad key_name wrapper context e w).0
  unfolding check_envelope is
  check_envelope-IsOtherResult e aad key_name context w =
      ground (arith, open_envelope-IsOtherResult e aad context w)

  pub decrypt_envelope-IsOtherResult :
      (encoded aad key_name context : Bytes) (w : W)
      → IsOtherResult (decrypt_envelope c json encoded aad key_name (some wrapper) context w).0
  unfolding decrypt_envelope is
  decrypt_envelope-IsOtherResult encoded aad key_name context w =
      elim (Result-cases (parse_envelope json encoded)) [
        | inl (e, h) ↦ ground (arith, h, check_envelope-IsOtherResult e aad key_name context w)
        | inr (e, h) ↦ ground (
          arith,
          h,
          subst IsOtherResult h (parse_envelope-IsOtherResult json encoded (q.decode encoded)),
        )
      ]
