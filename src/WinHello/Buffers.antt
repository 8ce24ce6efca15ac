-- ===== src/WinHello/Buffers.antt =====
-- winhello/crypto.go once more, with the byte slices that hold a content key as buffers in memory:
-- what the deferred calls of `zeroBytes` leave of them.
pub mod Rules
pub mod Cleared
use keyring.Prelude.{
  ℕ, zero, suc, Bytes, Option, none, some, List, [], ◌∷◌, ◌++◌, length, not, is_empty, ◌==◌,
  list_eq, nat_eq, if◌then◌else◌,
}
use keyring.Prelude.Int.{pos}
use keyring.Errors.{
  sentinel, err_wrap_key, err_unwrap_key, err_encrypt, err_decrypt, err_random, err_aad_mismatch,
  err_key_name_mismatch, err_key_wrapper, err_missing_aad, err_envelope_key_name,
}
use keyring.Exec.{Exec, ok, raise, lift, on_error, ◌>>=◌, ◌>>◌}
use keyring.WinHello.Envelope.{
  Envelope, EnvelopeCodec, envelope_version, provider_passport_ksp, content_alg_aes256_gcm,
  wrap_alg_rsa_pkcs1v15, marshal, parse_envelope,
}
use keyring.WinHello.Crypto.{KeyWrapper, Cryptography, cek_size, both}

-- The buffers in the order in which they were made; one is named by its place.
pub record Memory (W : Type 0) : Type 0 where
  pub world : W
  pub buffers : List Bytes

zeros : ℕ → Bytes
zeros zero = []
zeros (suc n) = 0 ∷ zeros n

-- The loop of `zeroBytes`.
pub zero_bytes : Bytes → Bytes
zero_bytes [] = []
zero_bytes (b ∷ buf) = 0 ∷ zero_bytes buf

pub buffer_at : List Bytes → ℕ → Bytes
buffer_at [] i = []
buffer_at (b ∷ bs) zero = b
buffer_at (b ∷ bs) (suc i) = buffer_at bs i

pub with_buffer : List Bytes → ℕ → Bytes → List Bytes
with_buffer [] i x = []
with_buffer (b ∷ bs) zero x = x ∷ bs
with_buffer (b ∷ bs) (suc i) x = b ∷ with_buffer bs i x

module _ {W : Type 0} where
  -- An action that touches no buffer.
  pub within : {A : Type 0} → Exec W A → Exec (Memory W) A
  within m s = let (r, w) = m s.world in (r, record s { world = w })

  -- `make`, `bytes.Clone`, or a slice that a call returns.
  new_buffer : Bytes → Exec (Memory W) ℕ
  new_buffer bytes s = (ok (length s.buffers), record s { buffers = s.buffers ++ bytes ∷ [] })

  load : ℕ → Exec (Memory W) Bytes
  unfolding buffer_at
  load i s = (ok (buffer_at s.buffers i), s)

  store : ℕ → Bytes → Exec (Memory W) Unit
  unfolding with_buffer
  store i x s = (ok tt, record s { buffers = with_buffer s.buffers i x })

  -- `defer zeroBytes(buf)` around what follows it.
  pub clearing : {A : Type 0} → ℕ → Exec (Memory W) A → Exec (Memory W) A
  unfolding buffer_at with_buffer zero_bytes
  clearing i m s =
      let (r, s₁) = m s in
      (r, record s₁ { buffers = with_buffer s₁.buffers i (zero_bytes (buffer_at s₁.buffers i)) })

module _ {W Block Gcm : Type 0} (c : Cryptography W Block Gcm) (json : EnvelopeCodec) where
  -- From the clone of the key on.
  wrap_clone : Bytes → Bytes → Bytes → KeyWrapper W → Gcm → Bytes → ℕ → Exec (Memory W) Bytes
  wrap_clone plaintext aad key_name wrapper gcm nonce cek = do
    key ← load cek
    wrap_input ← new_buffer key
    clearing wrap_input (do
      input ← load wrap_input
      wrapped_cek ← within (on_error (both err_wrap_key) (wrapper.wrap_key input))
      within (
          lift (
            marshal json (record {
              version = pos envelope_version;
              provider = provider_passport_ksp;
              key_name = key_name;
              content_alg = content_alg_aes256_gcm;
              wrap_alg = wrap_alg_rsa_pkcs1v15;
              nonce = nonce;
              wrapped_cek = wrapped_cek;
              ciphertext = c.seal gcm nonce plaintext aad;
              aad = aad;
            }))))

  fill_and_seal : Bytes → Bytes → Bytes → KeyWrapper W → ℕ → Exec (Memory W) Bytes
  fill_and_seal plaintext aad key_name wrapper cek = do
    random ← within (on_error (both err_random) (c.read_random cek_size))
    store cek random
    key ← load cek
    block ← within (on_error (both err_encrypt) (lift (c.new_cipher key)))
    gcm ← within (on_error (both err_encrypt) (lift (c.new_gcm block)))
    nonce ← within (on_error (both err_random) (c.read_random (c.nonce_size gcm)))
    wrap_clone plaintext aad key_name wrapper gcm nonce cek

  -- `encryptWinHelloEnvelope`.
  pub encrypt_cleared : Bytes → Bytes → Bytes → Option (KeyWrapper W) → Exec (Memory W) Bytes
  encrypt_cleared plaintext aad key_name none = raise (sentinel err_key_wrapper)
  encrypt_cleared plaintext aad key_name (some wrapper) =
      if is_empty aad
      then raise (sentinel err_missing_aad)
      else if is_empty key_name
      then raise (sentinel err_envelope_key_name)
      else do
        cek ← new_buffer (zeros cek_size)
        clearing cek (fill_and_seal plaintext aad key_name wrapper cek)

  unseal_with : Envelope → Bytes → ℕ → Exec (Memory W) Bytes
  unseal_with envelope aad cek = do
    key ← load cek
    block ← within (on_error (both err_decrypt) (lift (c.new_cipher key)))
    gcm ← within (on_error (both err_decrypt) (lift (c.new_gcm block)))
    within
        (on_error (both err_decrypt) (lift (c.unseal gcm envelope.nonce envelope.ciphertext aad)))

  -- The slice that `UnwrapKey` returns is the caller's.
  open_cleared : Envelope → Bytes → KeyWrapper W → Bytes → Exec (Memory W) Bytes
  open_cleared envelope aad wrapper context = do
    unwrapped ←
        within (on_error (both err_unwrap_key) (wrapper.unwrap_key envelope.wrapped_cek context))
    cek ← new_buffer unwrapped
    clearing cek (unseal_with envelope aad cek)

  check_cleared : Bytes → Bytes → KeyWrapper W → Bytes → Envelope → Exec (Memory W) Bytes
  check_cleared aad expected_key_name wrapper context envelope =
      if not (envelope.key_name == expected_key_name)
      then raise (sentinel err_key_name_mismatch)
      else if not (envelope.aad == aad)
      then raise (sentinel err_aad_mismatch)
      else open_cleared envelope aad wrapper context

  -- `decryptWinHelloEnvelope`.
  pub decrypt_cleared :
      Bytes → Bytes → Bytes → Option (KeyWrapper W) → Bytes → Exec (Memory W) Bytes
  decrypt_cleared encoded aad expected_key_name none context = raise (sentinel err_key_wrapper)
  decrypt_cleared encoded aad expected_key_name (some wrapper) context =
      if is_empty aad
      then raise (sentinel err_missing_aad)
      else if is_empty expected_key_name
      then raise (sentinel err_envelope_key_name)
      else do
        envelope ← within (lift (parse_envelope json encoded))
        check_cleared aad expected_key_name wrapper context envelope
