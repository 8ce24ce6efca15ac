-- ===== src/WinHello/Working/Sealing.antt =====
-- Where everything works, an item that is sealed (winhello/crypto.go) is one that opens.
use keyring.Prelude.{
  ◌≡◌, refl, ◌∙◌, ap, Bytes, false, Option, some, length, is_empty, arith, Bool-cases, inl, inr,
  ◌&&◌, ◌==◌, ==_refl, list_eq, nat_eq,
}
use keyring.Prelude.Int.{pos}
use keyring.Exec.{Result, ok}
use keyring.Exec.Pure.{>>=-eq-ok}
use keyring.WinHello.Envelope.{
  Envelope, EnvelopeCodec, IsValid, envelope_version, provider_passport_ksp, content_alg_aes256_gcm,
  wrap_alg_rsa_pkcs1v15, marshal, parse_envelope,
}
use keyring.WinHello.Envelope.Laws.{validate_iff}
use keyring.WinHello.Crypto.{
  KeyWrapper, Cryptography, AadCodec, winhello_aad, cek_size, seal_envelope, encrypt_envelope,
  open_envelope, decrypt_envelope,
}
use keyring.WinHello.Backend.{Hooks, Backend}
use keyring.WinHello.Working.{IsWorking, opened, plaintext_of}

module _ {W Block Gcm : Type 0} (c : Cryptography W Block Gcm) (json : EnvelopeCodec)
    (aad_json : AadCodec) (hooks : Hooks W) (b : Backend) (blob : W → Bytes → Option Bytes)
    (wrapper : KeyWrapper W) (unwrapped : Bytes → Result Bytes)
    (works : IsWorking c json aad_json hooks b blob wrapper unwrapped) where
  abbrev aad_of : Bytes → Bytes
  aad_of key = winhello_aad aad_json b.service_name key

  -- The result of an action on the world, which spares the credentials.
  abbrev pub Yields : {A : Type 0} → Result A × W → Result A → W → Type 0
  Yields run r w = (run.0 ≡ r) × ((t : Bytes) → blob run.1 t ≡ blob w t)

  abbrev made : Bytes → Bytes → Bytes → Bytes → Envelope
  made key nonce wrapped_cek ciphertext = record {
    version = pos envelope_version;
    provider = provider_passport_ksp;
    key_name = b.key_name;
    content_alg = content_alg_aes256_gcm;
    wrap_alg = wrap_alg_rsa_pkcs1v15;
    nonce = nonce;
    wrapped_cek = wrapped_cek;
    ciphertext = ciphertext;
    aad = aad_of key;
  }

  abbrev held_in : Bytes → Bytes → Result Bytes
  held_in = plaintext_of c json aad_json b unwrapped

  made-IsValid :
      (key nonce wrapped ciphertext : Bytes)
      → length nonce ≡ 12
      → is_empty wrapped ≡ false
      → is_empty ciphertext ≡ false
      → IsValid (made key nonce wrapped ciphertext)
  unfolding winhello_aad
  made-IsValid key nonce wrapped ciphertext twelve full some_text = record {
    version = refl;
    provider = refl;
    key_name = works.named;
    content_alg = refl;
    wrap_alg = refl;
    nonce = twelve;
    wrapped_cek = full;
    ciphertext = some_text;
    aad = works.has_aad _;
  }

  -- A text that JSON reads as such an envelope holds what was sealed.
  plaintext_of-made :
      (key p x cek nonce wrapped : Bytes) (block : Block) (gcm : Gcm)
      → json.decode x ≡ ok (made key nonce wrapped (c.seal gcm nonce p (aad_of key)))
      → IsValid (made key nonce wrapped (c.seal gcm nonce p (aad_of key)))
      → unwrapped wrapped ≡ ok cek
      → c.new_cipher cek ≡ ok block
      → c.new_gcm block ≡ ok gcm
      → held_in key x ≡ ok p
  unfolding plaintext_of opened parse_envelope
  plaintext_of-made key p x cek nonce wrapped block gcm reads valid back ciphered moded =
      rw
        (
          reads,
          (validate_iff (made key nonce wrapped (c.seal gcm nonce p (aad_of key)))).1 valid,
          ==_refl b.key_name,
          ==_refl (aad_of key),
          back,
          ciphered,
          moded,
        )
        (works.unseals gcm nonce p (aad_of key))

  encrypt_envelope_run :
      (key p x cek nonce wrapped : Bytes) (block : Block) (gcm : Gcm) (w : W)
      → let w₁ = (c.read_random cek_size w).1 in
        let w₂ = (c.read_random (c.nonce_size gcm) w₁).1 in
        (c.read_random cek_size w).0 ≡ ok cek
        → c.new_cipher cek ≡ ok block
        → c.new_gcm block ≡ ok gcm
        → (c.read_random (c.nonce_size gcm) w₁).0 ≡ ok nonce
        → (wrapper.wrap_key cek w₂).0 ≡ ok wrapped
        → json.encode (made key nonce wrapped (c.seal gcm nonce p (aad_of key))) ≡ ok x
        → IsValid (made key nonce wrapped (c.seal gcm nonce p (aad_of key)))
        → encrypt_envelope c json p (aad_of key) b.key_name (some wrapper) w
          ≡ (ok x, (wrapper.wrap_key cek w₂).1)
  unfolding encrypt_envelope seal_envelope marshal
  encrypt_envelope_run key p x cek nonce wrapped block gcm w h₁ h₂ h₃ h₄ h₅ h₆ valid = ground (
    arith,
    works.named,
    valid.aad,
    (validate_iff (made key nonce wrapped (c.seal gcm nonce p (aad_of key)))).1 valid,
  )

  -- What is encrypted for a key is a text that holds it under the key.
  pub seals :
      (key p : Bytes) (w : W)
      → (x : Bytes) × (held_in key x ≡ ok p)
        × Yields (encrypt_envelope c json p (aad_of key) b.key_name (some wrapper) w) (ok x) w
  seals key p w =
      let (cek, got_cek, size) = works.random cek_size w in
      let w₁ = (c.read_random cek_size w).1 in
      let (block, ciphered) = works.cipher cek size in
      let (gcm, moded, nonces) = works.mode block in
      let (nonce, got_nonce, counted) = works.random (c.nonce_size gcm) w₁ in
      let w₂ = (c.read_random (c.nonce_size gcm) w₁).1 in
      let (wrapped, got_wrapped, full, back) = works.wraps cek w₂ size in
      let sealed = c.seal gcm nonce p (aad_of key) in
      let (x, written, reads) = works.encodes (made key nonce wrapped sealed) refl in
      let valid =
        made-IsValid key nonce wrapped sealed (counted ∙ nonces) full
          (works.sealed_full gcm nonce p (aad_of key)) in
      let run =
        encrypt_envelope_run key p x cek nonce wrapped block gcm w got_cek ciphered moded got_nonce
          got_wrapped written valid in
      (
        x,
        plaintext_of-made key p x cek nonce wrapped block gcm reads valid back ciphered moded,
        (
          ap (λ (r : Result Bytes × W). r.0) run,
          λ t.
              ap (λ (r : Result Bytes × W). blob r.1 t) run
              ∙ works.wrap_spares cek w₂ t
              ∙ works.random_spares (c.nonce_size gcm) w₁ t
              ∙ works.random_spares cek_size w t,
        ),
      )

  opened-eq-ok :
      (key : Bytes) (e : Envelope) {p : Bytes}
      → opened c json aad_json b unwrapped key e ≡ ok p
      → (e.key_name ≡ b.key_name)
        × (e.aad ≡ aad_of key)
        × (cek : Bytes) × (unwrapped e.wrapped_cek ≡ ok cek)
        × (block : Block) × (c.new_cipher cek ≡ ok block)
        × (gcm : Gcm) × (c.new_gcm block ≡ ok gcm)
        × (c.unseal gcm e.nonce e.ciphertext e.aad ≡ ok p)
  unfolding opened
  opened-eq-ok key e h = elim (Bool-cases (e.key_name == b.key_name && e.aad == aad_of key)) [
    | inl same ↦
        let (cek, h₁, r₁) = >>=-eq-ok (unwrapped e.wrapped_cek) _ (rw same at h) in
        let (block, h₂, r₂) = >>=-eq-ok (c.new_cipher cek) _ r₁ in
        let (gcm, h₃, r₃) = >>=-eq-ok (c.new_gcm block) _ r₂ in
        (ground arith, ground arith, cek, h₁, block, h₂, gcm, h₃, r₃)
    | inr other ↦ absurd (ground arith)
  ]

  -- A text that holds something under a key is decrypted to it.
  pub decrypts :
      (key x p context : Bytes) (w : W)
      → held_in key x ≡ ok p
      → Yields (decrypt_envelope c json x (aad_of key) b.key_name (some wrapper) context w) (ok p) w
  unfolding plaintext_of decrypt_envelope open_envelope winhello_aad
  decrypts key x p context w h =
      let (e, parsed, inside) = >>=-eq-ok (parse_envelope json x) _ h in
      let (named, bound, cek, h₁, block, h₂, gcm, h₃, h₄) = opened-eq-ok key e inside in
      let asked = works.unwraps e.wrapped_cek context w in
      let full : is_empty (aad_of key) ≡ false = works.has_aad _ in
      (
        ground (arith, works.named, h₁, h₂, h₃, h₄, named, bound),
        λ t.
            ground
              (arith, works.named, works.unwrap_spares e.wrapped_cek context w t, named, bound),
      )
