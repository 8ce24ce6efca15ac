-- ===== src/WinHello/Buffers/Cleared.antt =====
-- Encryption and decryption (winhello/crypto.go) leave no content key in their buffers.
use keyring.Prelude.{
  ◌≡◌, refl, Bytes, Option, none, some, List, [], ◌∷◌, ◌++◌, length, is_empty, not, ◌==◌, list_eq,
  nat_eq,
}
use keyring.Errors.{err_random, err_encrypt, err_decrypt, err_wrap_key}
use keyring.Exec.{ok, lift, on_error, ◌>>=◌}
use keyring.Prelude.Int.{pos}
use keyring.WinHello.Envelope.{
  Envelope, EnvelopeCodec, parse_envelope, marshal, envelope_version, provider_passport_ksp,
  content_alg_aes256_gcm, wrap_alg_rsa_pkcs1v15,
}
use keyring.WinHello.Crypto.{
  KeyWrapper, Cryptography, cek_size, both, seal_envelope, encrypt_envelope, open_envelope,
  decrypt_envelope,
}
use keyring.WinHello.Buffers.{
  new_buffer, load, store, wrap_clone, fill_and_seal, encrypt_cleared, check_cleared, unseal_with,
  open_cleared, decrypt_cleared, zeros,
}
use keyring.WinHello.Buffers.Rules.{
  Clears, Holds, Clears-raise, Clears-if, memory, Clears-bind, Holds-bind, Clears-within,
  Holds-Clears, Clears-clearing, buffer_at-append, with_buffer-append,
}

module _ {W : Type 0} where
  load_run :
      (w : W) (bs : List Bytes) (x : Bytes) (ms : List Bytes)
      → load (length bs) (memory w (bs ++ x ∷ ms)) ≡ (ok x, memory w (bs ++ x ∷ ms))
  unfolding load
  load_run w bs x ms = rw (buffer_at-append bs x ms) refl

  store_run :
      (w : W) (bs : List Bytes) (x y : Bytes)
      → store (length bs) y (memory w (bs ++ x ∷ [])) ≡ (ok tt, memory w (bs ++ y ∷ []))
  unfolding store
  store_run w bs x y = rw (with_buffer-append bs x [] y) refl

  new_buffer_run :
      (w : W) (bs : List Bytes) (x : Bytes)
      → new_buffer x (memory w bs) ≡ (ok (length bs), memory w (bs ++ x ∷ []))
  unfolding new_buffer
  new_buffer_run w bs x = refl

module _ {W Block Gcm : Type 0} (c : Cryptography W Block Gcm) (json : EnvelopeCodec) where
  unseal_with-Clears :
      (envelope : Envelope) (aad key : Bytes) (w : W) (bs : List Bytes)
      → Clears
          (unseal_with c json envelope aad (length bs) (memory w (bs ++ key ∷ [])))
          ((do
            block ← on_error (both err_decrypt) (lift (c.new_cipher key))
            gcm ← on_error (both err_decrypt) (lift (c.new_gcm block))
            on_error
                (both err_decrypt)
                (lift (c.unseal gcm envelope.nonce envelope.ciphertext aad)))
            w)
          (bs ++ key ∷ [])
  unfolding unseal_with
  unseal_with-Clears envelope aad key w bs =
      rw (load_run w bs key [])
        (Clears-bind _ w _ _ _ (λ block v. Clears-bind _ v _ _ _ (λ gcm u. Clears-within _ u _)))

  open_cleared-Clears :
      (envelope : Envelope) (aad context : Bytes) (wrapper : KeyWrapper W) (w : W) (bs : List Bytes)
      → Clears
          (open_cleared c json envelope aad wrapper context (memory w bs))
          (open_envelope c json envelope aad wrapper context w)
          bs
  unfolding open_cleared open_envelope
  open_cleared-Clears envelope aad context wrapper w bs = Clears-bind _ w bs _ _ λ key v.
      rw (new_buffer_run v bs key) (
        Clears-clearing (unseal_with c json envelope aad (length bs)) (memory v (bs ++ key ∷ [])) bs
          (Holds-Clears bs key (unseal_with-Clears envelope aad key v bs)))

  decrypt_cleared-Clears :
      (encoded aad key_name context : Bytes) (wrapper : Option (KeyWrapper W)) (w : W)
      (bs : List Bytes)
      → Clears
          (decrypt_cleared c json encoded aad key_name wrapper context (memory w bs))
          (decrypt_envelope c json encoded aad key_name wrapper context w)
          bs
  unfolding decrypt_cleared check_cleared decrypt_envelope
  decrypt_cleared-Clears encoded aad key_name context none w bs = Clears-raise _ w bs
  decrypt_cleared-Clears encoded aad key_name context (some wrapper) w bs =
      Clears-if (is_empty aad) _ _ _ _ w bs (Clears-raise _ w bs) (
        Clears-if (is_empty key_name) _ _ _ _ w bs (Clears-raise _ w bs) (
          Clears-bind (lift (parse_envelope json encoded)) w bs _ _ λ e v.
            Clears-if (not (e.key_name == key_name)) _ _ _ _ v bs (Clears-raise _ v bs) (
              Clears-if (not (e.aad == aad)) _ _ _ _ v bs (Clears-raise _ v bs)
                (open_cleared-Clears e aad context wrapper v bs))))

  wrap_clone-Clears :
      (plaintext aad key_name : Bytes) (wrapper : KeyWrapper W) (gcm : Gcm) (nonce key : Bytes)
      (w : W) (bs : List Bytes)
      → Clears
          (wrap_clone c json plaintext aad key_name wrapper gcm nonce
            (length bs)
            (memory w (bs ++ key ∷ [])))
          ((do
            wrapped_cek ← on_error (both err_wrap_key) (wrapper.wrap_key key)
            lift (
                marshal json (record {
                  version = pos envelope_version;
                  provider = provider_passport_ksp;
                  key_name = key_name;
                  content_alg = content_alg_aes256_gcm;
                  wrap_alg = wrap_alg_rsa_pkcs1v15;
                  nonce = nonce;
                  wrapped_cek = wrapped_cek;
                  ciphertext = c.seal gcm nonce plaintext aad;
                  aad = aad;
                })))
            w)
          (bs ++ key ∷ [])
  unfolding wrap_clone
  wrap_clone-Clears plaintext aad key_name wrapper gcm nonce key w bs =
      let bs₁ = bs ++ key ∷ [] in
      rw (load_run w bs key [], new_buffer_run w bs₁ key)
        (Clears-clearing _ (memory w (bs₁ ++ key ∷ [])) bs₁ (
          Holds-Clears bs₁ key
            (rw (load_run w bs₁ key []) (Clears-bind _ w _ _ _ λ wrapped v. Clears-within _ v _))))

  fill_and_seal-Holds :
      (plaintext aad key_name : Bytes) (wrapper : KeyWrapper W) (old : Bytes) (w : W)
      (bs : List Bytes)
      → Holds
          (fill_and_seal c json plaintext aad key_name wrapper
            (length bs)
            (memory w (bs ++ old ∷ [])))
          (seal_envelope c json plaintext aad key_name wrapper w)
          bs
  unfolding fill_and_seal seal_envelope
  fill_and_seal-Holds plaintext aad key_name wrapper old w bs =
      Holds-bind (on_error (both err_random) (c.read_random cek_size)) w bs old _ _ λ key v.
        rw (store_run v bs old key, load_run v bs key [])
          (Holds-Clears bs key (
            Clears-bind (on_error (both err_encrypt) (lift (c.new_cipher key))) v _ _ _ λ block v₁.
              Clears-bind (on_error (both err_encrypt) (lift (c.new_gcm block))) v₁ _ _ _ λ gcm v₂.
                Clears-bind (on_error (both err_random) (c.read_random (c.nonce_size gcm))) v₂ _ _ _
                  λ nonce v₃. wrap_clone-Clears plaintext aad key_name wrapper gcm nonce key v₃ bs))

  encrypt_cleared-Clears :
      (plaintext aad key_name : Bytes) (wrapper : Option (KeyWrapper W)) (w : W) (bs : List Bytes)
      → Clears
          (encrypt_cleared c json plaintext aad key_name wrapper (memory w bs))
          (encrypt_envelope c json plaintext aad key_name wrapper w)
          bs
  unfolding encrypt_cleared encrypt_envelope
  encrypt_cleared-Clears plaintext aad key_name none w bs = Clears-raise _ w bs
  encrypt_cleared-Clears plaintext aad key_name (some wrapper) w bs =
      Clears-if (is_empty aad) _ _ _ _ w bs (Clears-raise _ w bs) (
        Clears-if (is_empty key_name) _ _ _ _ w bs (Clears-raise _ w bs) (
          rw (new_buffer_run w bs (zeros cek_size)) (
            Clears-clearing (fill_and_seal c json plaintext aad key_name wrapper (length bs))
              (memory w (bs ++ zeros cek_size ∷ [])) bs
              (fill_and_seal-Holds plaintext aad key_name wrapper (zeros cek_size) w bs))))

  -- Whichever call fails, encryption and decryption leave nothing but zeros in the buffers that
  -- they made for the content key and its clone, leave the other buffers as they are, and have the
  -- result and the effect on the world that they have without buffers.
  pub envelopes-Clear :
      (text aad key_name context : Bytes) (wrapper : Option (KeyWrapper W)) (w : W)
      (bs : List Bytes)
      → Clears
          (encrypt_cleared c json text aad key_name wrapper (memory w bs))
          (encrypt_envelope c json text aad key_name wrapper w)
          bs
        × Clears
            (decrypt_cleared c json text aad key_name wrapper context (memory w bs))
            (decrypt_envelope c json text aad key_name wrapper context w)
            bs
  envelopes-Clear text aad key_name context wrapper w bs = (
    encrypt_cleared-Clears text aad key_name wrapper w bs,
    decrypt_cleared-Clears text aad key_name context wrapper w bs,
  )
