-- ===== src/WinHello/Crypto/RoundTrip.antt =====
-- Encryption and then decryption of an envelope (winhello/crypto.go).
use keyring.Prelude.{◌≡◌, Bytes, true, false, Bool, some, is_empty, list_eq, nat_eq, arith}
use keyring.Prelude.Int.{pos}
use keyring.Exec.{ok, on_error, lift}
use keyring.Exec.Runs.{>>=-eq-ok, on_error-eq-ok}
use keyring.WinHello.Envelope.{
  Envelope, EnvelopeCodec, envelope_version, provider_passport_ksp, content_alg_aes256_gcm,
  wrap_alg_rsa_pkcs1v15, marshal,
}
use keyring.WinHello.Envelope.Laws.{parse_envelope-marshal}
use keyring.WinHello.Crypto.{
  KeyWrapper, Cryptography, cek_size, seal_envelope, encrypt_envelope, open_envelope,
  decrypt_envelope, both,
}

module _ {W Block Gcm : Type 0} (c : Cryptography W Block Gcm) (json : EnvelopeCodec) where
  -- How a successful encryption went.
  pub record Sealed (plaintext aad key_name : Bytes) (wrapper : KeyWrapper W) (encoded : Bytes)
      : Type 0 where
    pub cek : Bytes
    pub block : Block
    pub gcm : Gcm
    pub nonce : Bytes
    pub wrapped_cek : Bytes
    pub before : W
    pub cipher : c.new_cipher cek ≡ ok block
    pub mode : c.new_gcm block ≡ ok gcm
    pub wraps : (wrapper.wrap_key cek before).0 ≡ ok wrapped_cek
    pub written :
        marshal json (record {
          version = pos envelope_version;
          provider = provider_passport_ksp;
          key_name = key_name;
          content_alg = content_alg_aes256_gcm;
          wrap_alg = wrap_alg_rsa_pkcs1v15;
          nonce = nonce;
          wrapped_cek = wrapped_cek;
          ciphertext = c.seal gcm nonce plaintext aad;
          aad = aad;
        })
        ≡ ok encoded

  seal_envelope-eq-ok :
      (plaintext aad key_name : Bytes) (wrapper : KeyWrapper W) (w : W) {encoded : Bytes} {w' : W}
      → seal_envelope c json plaintext aad key_name wrapper w ≡ (ok encoded, w')
      → Sealed plaintext aad key_name wrapper encoded
  unfolding seal_envelope
  seal_envelope-eq-ok plaintext aad key_name wrapper w h =
      let (cek, got_cek, h₁) = >>=-eq-ok (on_error (both _) (c.read_random cek_size)) _ w h in
      let (block, got_block, h₂) = >>=-eq-ok (on_error (both _) (lift (c.new_cipher cek))) _ _ h₁ in
      let (gcm, got_gcm, h₃) = >>=-eq-ok (on_error (both _) (lift (c.new_gcm block))) _ _ h₂ in
      let (nonce, got_nonce, h₄) =
        >>=-eq-ok (on_error (both _) (c.read_random (c.nonce_size gcm))) _ _ h₃ in
      let (wrapped, got_wrapped, h₅) =
        >>=-eq-ok (on_error (both _) (wrapper.wrap_key cek)) _ _ h₄ in
      record {
        cek = cek;
        block = block;
        gcm = gcm;
        nonce = nonce;
        wrapped_cek = wrapped;
        before = _;
        cipher = ground arith;
        mode = ground arith;
        wraps = on_error-eq-ok (both _) (wrapper.wrap_key cek) _ got_wrapped;
        written = ground arith;
      }

  encrypt_envelope-eq-ok :
      (plaintext aad key_name : Bytes) (wrapper : KeyWrapper W) (w : W) {encoded : Bytes} {w' : W}
      → encrypt_envelope c json plaintext aad key_name (some wrapper) w ≡ (ok encoded, w')
      → (is_empty aad ≡ false)
        × (is_empty key_name ≡ false)
        × (seal_envelope c json plaintext aad key_name wrapper w ≡ (ok encoded, w'))
  unfolding encrypt_envelope
  encrypt_envelope-eq-ok plaintext aad key_name wrapper w h =
      (ground arith, ground arith, ground arith)

  open_envelope-Sealed :
      (plaintext aad key_name context : Bytes) (wrapper opened : KeyWrapper W) (v : W)
      (encoded : Bytes) (s : Sealed plaintext aad key_name wrapper encoded)
      → ((gcm : Gcm) (n p a : Bytes) → c.unseal gcm n (c.seal gcm n p a) a ≡ ok p)
      → (opened.unwrap_key s.wrapped_cek context v).0 ≡ ok s.cek
      → (open_envelope c json
          (record {
            version = pos envelope_version;
            provider = provider_passport_ksp;
            key_name = key_name;
            content_alg = content_alg_aes256_gcm;
            wrap_alg = wrap_alg_rsa_pkcs1v15;
            nonce = s.nonce;
            wrapped_cek = s.wrapped_cek;
            ciphertext = c.seal s.gcm s.nonce plaintext aad;
            aad = aad;
          })
          aad
          opened
          context
          v).0
        ≡ ok plaintext
  unfolding open_envelope
  open_envelope-Sealed plaintext aad key_name context wrapper opened v encoded s unseals unwraps =
      ground (arith, s.cipher, s.mode, unseals s.gcm s.nonce plaintext aad)

  -- An encryption that succeeded is undone by a decryption, in any later state, with the same AAD
  -- and key name. It is assumed that JSON reads back an envelope whose key name is a text, that the
  -- GCM opens what it sealed, and that the key opens what it wrapped and the user lets it.
  pub decrypt_envelope-encrypt_envelope :
      (is_text : Bytes → Bool) (plaintext aad key_name context : Bytes)
      (wrapper opened : KeyWrapper W) (w w' v : W) (encoded : Bytes)
      → ((e : Envelope) (b : Bytes)
          → is_text e.key_name ≡ true
          → json.encode e ≡ ok b
          → json.decode b ≡ ok e)
      → ((gcm : Gcm) (n p a : Bytes) → c.unseal gcm n (c.seal gcm n p a) a ≡ ok p)
      → ((cek x : Bytes) (u : W)
          → (wrapper.wrap_key cek u).0 ≡ ok x
          → (opened.unwrap_key x context v).0 ≡ ok cek)
      → is_text key_name ≡ true
      → encrypt_envelope c json plaintext aad key_name (some wrapper) w ≡ (ok encoded, w')
      → (decrypt_envelope c json encoded aad key_name (some opened) context v).0 ≡ ok plaintext
  unfolding decrypt_envelope
  decrypt_envelope-encrypt_envelope is_text plaintext aad key_name context wrapper opened w w' v
        encoded reads unseals unwraps named h =
      let (has_aad, has_name, run) = encrypt_envelope-eq-ok plaintext aad key_name wrapper w h in
      let s : Sealed plaintext aad key_name wrapper encoded =
        seal_envelope-eq-ok plaintext aad key_name wrapper w run in
      let parsed = parse_envelope-marshal json _ encoded (reads _ encoded named) s.written in
      let opens =
        open_envelope-Sealed plaintext aad key_name context wrapper opened v encoded s unseals
          (unwraps s.cek s.wrapped_cek s.before s.wraps) in
      ground (arith, has_aad, has_name, parsed, opens)
