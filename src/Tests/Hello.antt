-- ===== src/Tests/Hello.antt =====
-- The Windows Hello backend over a credential manager in memory, a toy codec and a toy cipher.
use keyring.Prelude.{
  ◌≡◌, refl, ap, subst, arith, Bytes, codes, false, none, some, [], ◌∷◌, list_eq, nat_eq,
}
use keyring.Prelude.Int.{pos}
use keyring.Errors.{sentinel, wrapf, err_aad_mismatch}
use keyring.Exec.{Result, ok, err, is_ok}
use keyring.WinHello.Errors.{IsOtherResult}
use keyring.WinHello.Envelope.{
  Envelope, marshal, parse_envelope, validate, provider_passport_ksp, content_alg_aes256_gcm,
  wrap_alg_rsa_pkcs1v15,
}
use keyring.WinHello.Crypto.{
  KeyWrapper, winhello_aad, encrypt_envelope, seal_envelope, decrypt_envelope,
}
use keyring.WinHello.Crypto.RoundTrip.{decrypt_envelope-encrypt_envelope}
use keyring.WinHello.Crypto.Rejection.{Matches, decrypt_envelope_rejects}
use keyring.WinHello.Store.{read, write, store_credential_name}
use keyring.WinHello.Store.Laws.{envelope_at}
use keyring.WinHello.Backend.{Hooks, Backend, Session, get, set, ensure_wrapper, open_wrapper}
use keyring.WinHello.Backend.Writes.{get-set}
use keyring.WinHello.Backend.Reads.{get_moved}
use keyring.WinHello.Backend.Failures.{get-IsOtherResult}
use keyring.WinHello.Crypto.Failures.{IsQuiet}
use keyring.Tests.Memory.{Memory, memory, fold, blob_of, takes, memory-IsManager}
use keyring.Tests.Toy.{
  toy_json, toy_aad, toy_cipher, toy_key, any_text, decode-encode, toy_aad-injective,
  toy_aad_has_text, unseal-seal, unwrap_key-wrap_key, toy-IsQuiet,
}

abbrev pub hooks : Hooks Memory
unfolding toy_key
hooks = record {
  ensure_passport_key = λ l hwnd w. (ok toy_key, w);
  open_passport_key = λ l hwnd w. (ok toy_key, w);
  parent_hwnd = λ w. (4, w);
}

abbrev pub backend : Backend
backend = record { service_name = codes "app"; logical_name = codes "v1"; key_name = codes "k" }

abbrev sample : Envelope
sample = record {
  version = pos 1;
  provider = provider_passport_ksp;
  key_name = codes "k";
  content_alg = content_alg_aes256_gcm;
  wrap_alg = wrap_alg_rsa_pkcs1v15;
  nonce = codes "twelve bytes";
  wrapped_cek = 1 ∷ [];
  ciphertext = 7 ∷ [];
  aad = 3 ∷ [];
}

abbrev bytes_of : Result Bytes → Bytes
bytes_of (ok b) = b
bytes_of (err e) = []

abbrev one : Memory
one = (codes "t", 1 ∷ []) ∷ []

abbrev fresh : Session Memory
fresh = record { wrapper = none; world = [] }

abbrev after_set : Session Memory
after_set = (set toy_cipher toy_json toy_aad memory hooks backend (codes "x") (5 ∷ []) fresh).1

set_run :
    set toy_cipher toy_json toy_aad memory hooks backend (codes "x") (5 ∷ []) fresh
    ≡ (ok tt, after_set)
unfolding set ensure_wrapper encrypt_envelope seal_envelope marshal validate write winhello_aad
    toy_cipher toy_json toy_key toy_aad list_eq nat_eq store_credential_name takes
set_run = refl

holds_toy_key : after_set.wrapper ≡ some toy_key
unfolding set ensure_wrapper encrypt_envelope seal_envelope marshal validate write winhello_aad
    toy_cipher toy_json toy_key toy_aad list_eq nat_eq store_credential_name
holds_toy_key = refl

unwraps :
    (wrapper : KeyWrapper Memory)
    → after_set.wrapper ≡ some wrapper
    → (cek x context : Bytes) (u v : Memory) → (wrapper.wrap_key cek u).0 ≡ ok x
    → (wrapper.unwrap_key x context v).0 ≡ ok cek
unwraps wrapper h =
    let same : toy_key ≡ wrapper = ground (arith, holds_toy_key) in
    subst
      (λ (k : KeyWrapper Memory).
        (cek x context : Bytes) (u v : Memory)
        → (k.wrap_key cek u).0 ≡ ok x
        → (k.unwrap_key x context v).0 ≡ ok cek)
      same unwrap_key-wrap_key

get-set_example :
    (get toy_cipher toy_json toy_aad memory hooks backend (codes "x") after_set).0 ≡ ok (5 ∷ [])
get-set_example =
    get-set toy_cipher toy_json toy_aad memory hooks backend blob_of takes memory-IsManager any_text
      (codes "x") (5 ∷ []) fresh after_set decode-encode unseal-seal unwraps refl set_run

abbrev moved : Envelope
moved = record sample { aad = winhello_aad toy_aad (codes "app") (codes "y") }

abbrev moved_text : Bytes
moved_text = bytes_of (marshal toy_json moved)

abbrev mixed_up : Session Memory
mixed_up = record {
  wrapper = some toy_key;
  world = (store_credential_name (codes "app") (codes "x"), moved_text) ∷ [];
}

moved_there :
    envelope_at memory blob_of takes memory-IsManager (codes "app") mixed_up.world (codes "x")
    ≡ some moved_text
unfolding list_eq nat_eq store_credential_name blob_of fold
moved_there = refl

moved_parses : parse_envelope toy_json moved_text ≡ ok moved
unfolding parse_envelope marshal validate toy_json toy_aad winhello_aad list_eq nat_eq
moved_parses = refl

get_moved_example : get toy_cipher toy_json toy_aad memory hooks backend (codes "x") mixed_up ≡ (
  err (wrapf "decrypt winhello item %q: %w" (sentinel err_aad_mismatch)),
  record mixed_up { world = (read memory (codes "app") (codes "x") mixed_up.world).1 },
)
get_moved_example =
    get_moved toy_cipher toy_json toy_aad memory hooks backend blob_of takes memory-IsManager
      any_text (codes "app") (codes "y") (codes "x") mixed_up toy_key moved_text moved
      toy_aad_has_text (λ x y t₁ t₂ t₃ t₄ h. toy_aad-injective x y h) refl refl refl refl
      moved_there moved_parses refl refl refl (λ (a, b). ground (arith, b)) refl

quiet :
    (wrapper : KeyWrapper Memory)
    → (open_wrapper hooks backend
        (record mixed_up { world = (read memory (codes "app") (codes "x") mixed_up.world).1 })).0
      ≡ ok wrapper
    → IsQuiet toy_cipher toy_json wrapper
unfolding open_wrapper
quiet wrapper h =
    let same : toy_key ≡ wrapper = ground arith in
    subst (IsQuiet toy_cipher toy_json) same toy-IsQuiet

get-IsOtherResult_example :
    IsOtherResult (get toy_cipher toy_json toy_aad memory hooks backend (codes "x") mixed_up).0
get-IsOtherResult_example =
    get-IsOtherResult toy_cipher toy_json toy_aad memory hooks backend blob_of takes
      memory-IsManager (codes "x") moved_text mixed_up moved_there quiet

not_matched : ¬ Matches toy_json moved_text (9 ∷ []) (codes "k")
unfolding winhello_aad toy_aad
not_matched m =
    let same : moved ≡ m.envelope = ground (arith, moved_parses, m.parsed) in
    ground (arith, ap (λ (e : Envelope). e.aad) same, m.same_aad)

decrypt_envelope_rejects_example :
    let run =
      decrypt_envelope toy_cipher toy_json moved_text
        (9 ∷ [])
        (codes "k")
        (some toy_key)
        (codes "context")
        [] in
    (is_ok run.0 ≡ false) × (run.1 ≡ [])
decrypt_envelope_rejects_example =
    decrypt_envelope_rejects toy_cipher toy_json moved_text (9 ∷ []) (codes "k") (codes "context")
      (some toy_key) [] not_matched

abbrev sealed_text : Bytes
sealed_text =
    bytes_of
      (encrypt_envelope toy_cipher toy_json (5 ∷ []) (3 ∷ []) (codes "k") (some toy_key) []).0

sealed_run :
    encrypt_envelope toy_cipher toy_json (5 ∷ []) (3 ∷ []) (codes "k") (some toy_key) []
    ≡ (ok sealed_text, [])
unfolding encrypt_envelope seal_envelope marshal validate toy_cipher toy_json toy_key list_eq nat_eq
sealed_run = refl

decrypt_envelope-encrypt_envelope_example :
    (decrypt_envelope toy_cipher toy_json sealed_text
      (3 ∷ [])
      (codes "k")
      (some toy_key)
      (codes "context")
      one).0
    ≡ ok (5 ∷ [])
decrypt_envelope-encrypt_envelope_example =
    decrypt_envelope-encrypt_envelope toy_cipher toy_json any_text (5 ∷ []) (3 ∷ []) (codes "k")
      (codes "context") toy_key toy_key [] [] one sealed_text decode-encode unseal-seal
      (λ cek x u. unwrap_key-wrap_key cek x (codes "context") u one) refl sealed_run
