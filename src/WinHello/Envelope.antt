-- ===== src/WinHello/Envelope.antt =====
-- winhello/envelope.go: the stored form of an encrypted item.
pub mod Laws
pub mod Failures
use keyring.Prelude.{
  ℕ, ◌≡◌, Bytes, codes, Bool, false, not, length, is_empty, ◌==◌, list_eq, nat_eq, if◌then◌else◌,
}
use keyring.Prelude.Int.{ℤ, pos, negsuc}
use keyring.Errors.{
  sentinel, wrapf, err_envelope_version, err_envelope_provider, err_envelope_key_name,
  err_envelope_content_alg, err_envelope_wrap_alg, err_envelope_nonce, err_envelope_wrapped_cek,
  err_envelope_ciphertext, err_envelope_aad,
}
use keyring.Exec.{Result, ok, err}
use keyring.Exec.Pure.{◌>>=◌, ◌>>◌}

abbrev pub envelope_version : ℕ
envelope_version = 1

abbrev pub provider_passport_ksp : Bytes
provider_passport_ksp = codes "Microsoft Passport Key Storage Provider"

abbrev pub content_alg_aes256_gcm : Bytes
content_alg_aes256_gcm = codes "AES-256-GCM"

abbrev pub aes_gcm_nonce_size : ℕ
aes_gcm_nonce_size = 12

abbrev pub wrap_alg_rsa_pkcs1v15 : Bytes
wrap_alg_rsa_pkcs1v15 = codes "RSAES-PKCS1-v1_5"

pub record Envelope : Type 0 where
  pub version : ℤ
  pub provider : Bytes
  pub key_name : Bytes
  pub content_alg : Bytes
  pub wrap_alg : Bytes
  pub nonce : Bytes
  pub wrapped_cek : Bytes
  pub ciphertext : Bytes
  pub aad : Bytes

-- `e.Version != winHelloEnvelopeVersion`, negated.
is_current : ℤ → Bool
is_current (pos n) = n == envelope_version
is_current (negsuc n) = false

unfoldable pub validate : Envelope → Result (Unit {0})
unfolding is_current
validate e =
    if not (is_current e.version)
    then err (wrapf "%w: %d" (sentinel err_envelope_version))
    else if not (e.provider == provider_passport_ksp)
    then err (wrapf "%w: %q" (sentinel err_envelope_provider))
    else if is_empty e.key_name
    then err (sentinel err_envelope_key_name)
    else if not (e.content_alg == content_alg_aes256_gcm)
    then err (wrapf "%w: %q" (sentinel err_envelope_content_alg))
    else if not (e.wrap_alg == wrap_alg_rsa_pkcs1v15)
    then err (wrapf "%w: %q" (sentinel err_envelope_wrap_alg))
    else if not (length e.nonce == aes_gcm_nonce_size)
    then err (wrapf "%w: got %d want %d" (sentinel err_envelope_nonce))
    else if is_empty e.wrapped_cek
    then err (sentinel err_envelope_wrapped_cek)
    else if is_empty e.ciphertext
    then err (sentinel err_envelope_ciphertext)
    else if is_empty e.aad
    then err (sentinel err_envelope_aad)
    else ok tt

-- `json.Marshal` and `json.Unmarshal` at the envelope's struct.
pub record EnvelopeCodec : Type 0 where
  pub encode : Envelope → Result Bytes
  pub decode : Bytes → Result Envelope

module _ (json : EnvelopeCodec) where
  unfoldable pub marshal : Envelope → Result Bytes
  marshal e = do validate e; json.encode e

  unfoldable pub parse_envelope : Bytes → Result Envelope
  parse_envelope encoded = do envelope ← json.decode encoded; validate envelope; ok envelope

-- What `validate` lets through.
pub record IsValid (e : Envelope) : Type 0 where
  pub version : e.version ≡ pos 1
  pub provider : e.provider ≡ provider_passport_ksp
  pub key_name : is_empty e.key_name ≡ false
  pub content_alg : e.content_alg ≡ content_alg_aes256_gcm
  pub wrap_alg : e.wrap_alg ≡ wrap_alg_rsa_pkcs1v15
  pub nonce : length e.nonce ≡ 12
  pub wrapped_cek : is_empty e.wrapped_cek ≡ false
  pub ciphertext : is_empty e.ciphertext ≡ false
  pub aad : is_empty e.aad ≡ false
