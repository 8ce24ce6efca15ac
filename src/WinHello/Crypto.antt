-- ===== src/WinHello/Crypto.antt =====
-- winhello/crypto.go: envelope encryption under a wrapped content key.
pub mod RoundTrip
pub mod Rejection
pub mod Failures
use keyring.Prelude.{
  ℕ, Bytes, codes, Option, none, some, not, is_empty, ◌==◌, list_eq, nat_eq, if◌then◌else◌,
}
use keyring.Prelude.Int.{pos}
use keyring.Errors.{
  Error, Sentinel, sentinel, wrapf_both, err_wrap_key, err_unwrap_key, err_encrypt, err_decrypt,
  err_random, err_aad_mismatch, err_key_name_mismatch, err_key_wrapper, err_missing_aad,
  err_envelope_key_name,
}
use keyring.Exec.{Exec, Result, raise, lift, on_error, ◌>>=◌}
use keyring.WinHello.Envelope.{
  Envelope, EnvelopeCodec, envelope_version, provider_passport_ksp, content_alg_aes256_gcm,
  wrap_alg_rsa_pkcs1v15, marshal, parse_envelope,
}

abbrev pub cek_size : ℕ
cek_size = 32

-- `winHelloKeyWrapper`.
pub record KeyWrapper (W : Type 0) : Type 0 where
  pub wrap_key : Bytes → Exec W Bytes
  pub unwrap_key : Bytes → Bytes → Exec W Bytes

-- `io.ReadFull` of that many random bytes, `aes.NewCipher`, `cipher.NewGCM`, and a GCM's methods.
pub record Cryptography (W Block Gcm : Type 0) : Type 0 where
  pub read_random : ℕ → Exec W Bytes
  pub new_cipher : Bytes → Result Block
  pub new_gcm : Block → Result Gcm
  pub nonce_size : Gcm → ℕ
  pub seal : Gcm → Bytes → Bytes → Bytes → Bytes
  pub unseal : Gcm → Bytes → Bytes → Bytes → Result Bytes

abbrev pub AadData : Type 0
AadData = record { backend : Bytes; version : ℕ; service_name : Bytes; item_key : Bytes }

-- `json.Marshal` at the AAD's struct, of which the program takes for granted that it succeeds.
abbrev pub AadCodec : Type 0
AadCodec = AadData → Bytes

unfoldable pub winhello_aad : AadCodec → Bytes → Bytes → Bytes
winhello_aad json service_name item_key = json (record {
  backend = codes "winhello";
  version = envelope_version;
  service_name = service_name;
  item_key = item_key;
})

abbrev pub both : Sentinel → Error → Error
both s e = wrapf_both "%w: %w" (sentinel s) e

module _ {W Block Gcm : Type 0} (c : Cryptography W Block Gcm) (json : EnvelopeCodec) where
  unfoldable pub seal_envelope : Bytes → Bytes → Bytes → KeyWrapper W → Exec W Bytes
  seal_envelope plaintext aad key_name wrapper = do
    cek ← on_error (both err_random) (c.read_random cek_size)
    block ← on_error (both err_encrypt) (lift (c.new_cipher cek))
    gcm ← on_error (both err_encrypt) (lift (c.new_gcm block))
    nonce ← on_error (both err_random) (c.read_random (c.nonce_size gcm))
    wrapped_cek ← on_error (both err_wrap_key) (wrapper.wrap_key cek)
    lift (
        marshal json (record {
          version = pos envelope_version;
          provider = provider_passport_ksp;
          key_name = key_name;
          content_alg = content_alg_aes256_gcm;
          wrap_alg = wrap_alg_rsa_pkcs1v15;
          nonce = nonce;
          wrapped_cek = wrapped_cek;
          ciphertext = c.seal gcm nonce plaintext aad;
          aad = aad;
        }))

  -- A nil wrapper is `none`.
  unfoldable pub encrypt_envelope : Bytes → Bytes → Bytes → Option (KeyWrapper W) → Exec W Bytes
  encrypt_envelope plaintext aad key_name none = raise (sentinel err_key_wrapper)
  encrypt_envelope plaintext aad key_name (some wrapper) =
      if is_empty aad
      then raise (sentinel err_missing_aad)
      else if is_empty key_name
      then raise (sentinel err_envelope_key_name)
      else seal_envelope plaintext aad key_name wrapper

  unfoldable pub open_envelope : Envelope → Bytes → KeyWrapper W → Bytes → Exec W Bytes
  open_envelope envelope aad wrapper context = do
    cek ← on_error (both err_unwrap_key) (wrapper.unwrap_key envelope.wrapped_cek context)
    block ← on_error (both err_decrypt) (lift (c.new_cipher cek))
    gcm ← on_error (both err_decrypt) (lift (c.new_gcm block))
    on_error (both err_decrypt) (lift (c.unseal gcm envelope.nonce envelope.ciphertext aad))

  check_envelope : Bytes → Bytes → KeyWrapper W → Bytes → Envelope → Exec W Bytes
  check_envelope aad expected_key_name wrapper context envelope =
      if not (envelope.key_name == expected_key_name)
      then raise (sentinel err_key_name_mismatch)
      else if not (envelope.aad == aad)
      then raise (sentinel err_aad_mismatch)
      else open_envelope envelope aad wrapper context

  unfoldable pub decrypt_envelope :
      Bytes → Bytes → Bytes → Option (KeyWrapper W) → Bytes → Exec W Bytes
  unfolding check_envelope
  decrypt_envelope encoded aad expected_key_name none context = raise (sentinel err_key_wrapper)
  decrypt_envelope encoded aad expected_key_name (some wrapper) context =
      if is_empty aad
      then raise (sentinel err_missing_aad)
      else if is_empty expected_key_name
      then raise (sentinel err_envelope_key_name)
      else do
        envelope ← lift (parse_envelope json encoded)
        check_envelope aad expected_key_name wrapper context envelope
