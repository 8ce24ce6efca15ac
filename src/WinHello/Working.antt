-- ===== src/WinHello/Working.antt =====
-- What has to work for the Windows Hello backend (winhello/backend.go) to keep items: the
-- libraries, the key and the user, none of which touches the stored credentials.
pub mod Sealing
pub mod Runs
use mathlib.Core.Option
use keyring.Prelude.{
  ℕ, ◌≡◌, Bytes, false, Option, none, some, length, is_empty, ◌&&◌, ◌==◌, list_eq, nat_eq,
  if◌then◌else◌,
}
use keyring.Errors.{sentinel, err_aad_mismatch}
use keyring.Exec.{Result, ok, err}
use keyring.Exec.Pure.{◌>>=◌}
use keyring.WinHello.Envelope.{Envelope, EnvelopeCodec, parse_envelope}
use keyring.WinHello.Crypto.{KeyWrapper, Cryptography, AadCodec, AadData, winhello_aad}
use keyring.WinHello.Backend.{Hooks, Backend}

module _ {W Block Gcm : Type 0} (c : Cryptography W Block Gcm) (json : EnvelopeCodec)
    (aad_json : AadCodec) (b : Backend) (unwrapped : Bytes → Result Bytes) where
  -- What a stored text holds under a key, if it is an envelope of this key and service.
  unfoldable pub opened : Bytes → Envelope → Result Bytes
  opened key e =
      if e.key_name == b.key_name && e.aad == winhello_aad aad_json b.service_name key
      then (do
        cek ← unwrapped e.wrapped_cek
        block ← c.new_cipher cek
        gcm ← c.new_gcm block
        c.unseal gcm e.nonce e.ciphertext e.aad)
      else err (sentinel err_aad_mismatch)

  unfoldable pub plaintext_of : Bytes → Bytes → Result Bytes
  unfolding opened
  plaintext_of key encoded = do e ← parse_envelope json encoded; opened key e

  -- What is stored, if anything is, opens.
  abbrev pub Opens : Bytes → Option Bytes → Type 0
  Opens key none = Unit
  Opens key (some x) = (p : Bytes) × (plaintext_of key x ≡ ok p)

module _ {W Block Gcm : Type 0} (c : Cryptography W Block Gcm) (json : EnvelopeCodec)
    (aad_json : AadCodec) (hooks : Hooks W) (b : Backend) (blob : W → Bytes → Option Bytes)
    (wrapper : KeyWrapper W) (unwrapped : Bytes → Result Bytes) where
  -- An action leaves the stored credentials as they are.
  abbrev pub Spares : {A : Type 0} → (W → A × W) → Type 0
  Spares m = (w : W) (t : Bytes) → blob (m w).1 t ≡ blob w t

  -- `unwrapped` is what the key makes of a wrapped content key, whenever it is asked: the user
  -- always answers the prompt in the same way.
  pub record IsWorking : Type 0 where
    pub random : (n : ℕ) (w : W) → (r : Bytes) × ((c.read_random n w).0 ≡ ok r) × (length r ≡ n)
    pub random_spares : (n : ℕ) → Spares (c.read_random n)
    pub cipher : (k : Bytes) → length k ≡ 32 → (x : Block) × (c.new_cipher k ≡ ok x)
    pub mode : (x : Block) → (g : Gcm) × (c.new_gcm x ≡ ok g) × (c.nonce_size g ≡ 12)
    pub sealed_full : (g : Gcm) (n p a : Bytes) → is_empty (c.seal g n p a) ≡ false
    pub unseals : (g : Gcm) (n p a : Bytes) → c.unseal g n (c.seal g n p a) a ≡ ok p
    pub wraps :
        (k : Bytes) (w : W)
        → length k ≡ 32
        → (x : Bytes) × ((wrapper.wrap_key k w).0 ≡ ok x)
          × (is_empty x ≡ false)
          × (unwrapped x ≡ ok k)
    pub wrap_spares : (k : Bytes) → Spares (wrapper.wrap_key k)
    pub unwraps : (x context : Bytes) (w : W) → (wrapper.unwrap_key x context w).0 ≡ unwrapped x
    pub unwrap_spares : (x context : Bytes) → Spares (wrapper.unwrap_key x context)
    pub encodes :
        (e : Envelope)
        → e.key_name ≡ b.key_name
        → (x : Bytes) × (json.encode e ≡ ok x) × (json.decode x ≡ ok e)
    pub has_aad : (x : AadData) → is_empty (aad_json x) ≡ false
    pub named : is_empty b.key_name ≡ false
    pub ensures : (l : Bytes) (h : ℕ) (w : W) → (hooks.ensure_passport_key l h w).0 ≡ ok wrapper
    pub ensure_spares : (l : Bytes) (h : ℕ) → Spares (hooks.ensure_passport_key l h)
    pub opens : (l : Bytes) (h : ℕ) (w : W) → (hooks.open_passport_key l h w).0 ≡ ok wrapper
    pub open_spares : (l : Bytes) (h : ℕ) → Spares (hooks.open_passport_key l h)
    pub window_spares : Spares hooks.parent_hwnd
