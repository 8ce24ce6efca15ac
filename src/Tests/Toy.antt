-- ===== src/Tests/Toy.antt =====
-- A codec that writes each field behind its length, and a cipher and a key that put one byte in
-- front.
use keyring.Prelude.{
  ℕ, zero, suc, ◌≡◌, refl, ap, sym, ◌∙◌, Bytes, Bool, true, false, [], ◌∷◌, ◌++◌, length, is_empty,
  arith,
}
use keyring.Prelude.Int.{ℤ, pos, negsuc}
use keyring.Errors.{failure, is}
use keyring.Exec.{Result, ok, err}
use keyring.Exec.Pure.{◌>>=◌}
use keyring.WinHello.Errors.{IsOtherResult}
use keyring.WinHello.Crypto.Failures.{IsQuiet}
use keyring.Tests.Memory.{Memory}
use keyring.WinHello.Envelope.{Envelope, EnvelopeCodec}
use keyring.WinHello.Crypto.{KeyWrapper, Cryptography, AadCodec, AadData}

unfoldable pub zeros : ℕ → Bytes
zeros zero = []
zeros (suc n) = 0 ∷ zeros n

split_off : ℕ → Bytes → Bytes × Bytes
split_off zero bs = ([], bs)
split_off (suc n) [] = ([], [])
split_off (suc n) (b ∷ bs) = let (front, back) = split_off n bs in (b ∷ front, back)

split_off-append : (b rest : Bytes) → split_off (length b) (b ++ rest) ≡ (b, rest)
unfolding split_off
split_off-append [] rest = refl
split_off-append (c ∷ b) rest = rw (split_off-append b rest) refl

field_to : Bytes → Bytes → Bytes
field_to b rest = length b ∷ (b ++ rest)

field_from : Bytes → Bytes × Bytes
unfolding split_off
field_from [] = ([], [])
field_from (n ∷ bs) = split_off n bs

field_from-field_to : (b rest : Bytes) → field_from (field_to b rest) ≡ (b, rest)
unfolding field_from field_to
field_from-field_to b rest = split_off-append b rest

version_to : ℤ → Bytes → Bytes
version_to (pos n) rest = 0 ∷ n ∷ rest
version_to (negsuc n) rest = 1 ∷ n ∷ rest

version_from : Bytes → Result (ℤ × Bytes)
version_from (zero ∷ n ∷ rest) = ok (pos n, rest)
version_from (suc k ∷ n ∷ rest) = ok (negsuc n, rest)
version_from bs = err (failure 1)

version_from-version_to : (v : ℤ) (rest : Bytes) → version_from (version_to v rest) ≡ ok (v, rest)
unfolding version_from version_to
version_from-version_to (pos n) rest = refl
version_from-version_to (negsuc n) rest = refl

fields_to : Envelope → Bytes
unfolding field_to
fields_to e = field_to e.provider (
    field_to e.key_name (
      field_to e.content_alg (
        field_to e.wrap_alg
          (field_to e.nonce (field_to e.wrapped_cek (field_to e.ciphertext (field_to e.aad [])))))))

fields_from : ℤ → Bytes → Envelope
unfolding field_from
fields_from v bs =
    let (provider, b₁) = field_from bs in
    let (key_name, b₂) = field_from b₁ in
    let (content_alg, b₃) = field_from b₂ in
    let (wrap_alg, b₄) = field_from b₃ in
    let (nonce, b₅) = field_from b₄ in
    let (wrapped_cek, b₆) = field_from b₅ in
    let (ciphertext, b₇) = field_from b₆ in
    let (aad, b₈) = field_from b₇ in
    record {
      version = v;
      provider = provider;
      key_name = key_name;
      content_alg = content_alg;
      wrap_alg = wrap_alg;
      nonce = nonce;
      wrapped_cek = wrapped_cek;
      ciphertext = ciphertext;
      aad = aad;
    }

fields_from-fields_to : (v : ℤ) (e : Envelope) → v ≡ e.version → fields_from v (fields_to e) ≡ e
unfolding fields_from fields_to
fields_from-fields_to v e h = simp (h, field_from-field_to)

unfoldable pub toy_json : EnvelopeCodec
unfolding version_to fields_to version_from fields_from
toy_json = record {
  encode = λ e. ok (version_to e.version (fields_to e));
  decode = λ x. (do (v, rest) ← version_from x; ok (fields_from v rest));
}

abbrev pub any_text : Bytes → Bool
any_text b = true

pub decode-encode :
    (e : Envelope) (x : Bytes)
    → any_text e.key_name ≡ true
    → toy_json.encode e ≡ ok x
    → toy_json.decode x ≡ ok e
unfolding toy_json
decode-encode e x t h =
    let same : version_to e.version (fields_to e) ≡ x = ground arith in
    rw
      (
        ← same,
        version_from-version_to e.version (fields_to e),
        fields_from-fields_to e.version e refl,
      )
      refl

unfoldable pub toy_aad : AadCodec
unfolding field_to
toy_aad x = field_to x.backend (x.version ∷ field_to x.service_name (field_to x.item_key []))

aad_behind : Bytes × Bytes → AadData
unfolding field_from
aad_behind (backend, []) = record {
  backend = backend;
  version = 0;
  service_name = [];
  item_key = [];
}
aad_behind (backend, v ∷ rest) =
    let (service, b₁) = field_from rest in
    record { backend = backend; version = v; service_name = service; item_key = (field_from b₁).0 }

aad_from : Bytes → AadData
unfolding field_from aad_behind
aad_from x = aad_behind (field_from x)

aad_from-toy_aad : (x : AadData) → aad_from (toy_aad x) ≡ x
unfolding aad_from aad_behind toy_aad
aad_from-toy_aad x = simp field_from-field_to

pub toy_aad-injective : (x y : AadData) → toy_aad x ≡ toy_aad y → x ≡ y
toy_aad-injective x y h = sym (aad_from-toy_aad x) ∙ ap aad_from h ∙ aad_from-toy_aad y

pub toy_aad_has_text : (x : AadData) → is_empty (toy_aad x) ≡ false
unfolding toy_aad
toy_aad_has_text x = refl

unfoldable pub first_off : Bytes → Result Bytes
first_off [] = err (failure 2)
first_off (b ∷ bs) = ok bs

unfoldable pub toy_cipher : Cryptography Memory Bytes Bytes
unfolding first_off zeros
toy_cipher = record {
  read_random = λ n w. (ok (zeros n), w);
  new_cipher = λ k. ok k;
  new_gcm = λ b. ok b;
  nonce_size = λ g. 12;
  seal = λ g n p a. 7 ∷ p;
  unseal = λ g n x a. first_off x;
}

unfoldable pub toy_key : KeyWrapper Memory
unfolding first_off
toy_key = record { wrap_key = λ x w. (ok (1 ∷ x), w); unwrap_key = λ x context w. (first_off x, w) }

pub unseal-seal : (g n p a : Bytes) → toy_cipher.unseal g n (toy_cipher.seal g n p a) a ≡ ok p
unfolding first_off toy_cipher
unseal-seal g n p a = refl

pub unwrap_key-wrap_key :
    (cek x context : Bytes) (u v : Memory)
    → (toy_key.wrap_key cek u).0 ≡ ok x
    → (toy_key.unwrap_key x context v).0 ≡ ok cek
unfolding first_off toy_key
unwrap_key-wrap_key cek x context u v h = let same : 1 ∷ cek ≡ x = ground arith in rw (← same) refl

first_off-IsOtherResult : (x : Bytes) → IsOtherResult (first_off x)
unfolding first_off is
first_off-IsOtherResult [] = refl
first_off-IsOtherResult (b ∷ bs) = tt

version_from-IsOtherResult :
    (x : Bytes) → IsOtherResult (do (v, rest) ← version_from x; ok (fields_from v rest))
unfolding version_from is
version_from-IsOtherResult [] = refl
version_from-IsOtherResult (b ∷ []) = ground arith
version_from-IsOtherResult (zero ∷ n ∷ rest) = tt
version_from-IsOtherResult (suc k ∷ n ∷ rest) = tt

pub toy-IsQuiet : IsQuiet toy_cipher toy_json toy_key
unfolding first_off toy_json version_from toy_cipher toy_key
toy-IsQuiet = record {
  decode = version_from-IsOtherResult;
  new_cipher = λ k. tt;
  new_gcm = λ b. tt;
  unseal = λ g n x a. first_off-IsOtherResult x;
  unwrap_key = λ x context w. first_off-IsOtherResult x;
}
