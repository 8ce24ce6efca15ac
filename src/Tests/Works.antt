-- ===== src/Tests/Works.antt =====
-- The Windows Hello keyring with the toy cipher, in which everything works.
use keyring.Prelude.{
  ℕ, zero, suc, ◌≡◌, ◌⊎◌, List, contains, true, is_some, refl, inr, ap, Bytes, codes, none, some,
  Option, length, list_eq, nat_eq, [], ◌∷◌,
}
use keyring.Errors.{Error, wrapf, sentinel, err_key_not_found}
use keyring.Exec.{ok, err}
use keyring.Api.{Item, Keyring, plain_item}
use keyring.WinHello.{winhello_ring}
use keyring.WinHello.Envelope.{marshal, validate, parse_envelope}
use keyring.WinHello.Store.{write, store_credential_name}
use keyring.WinHello.Backend.{Session, ensure_wrapper}
use keyring.WinHello.Backend
use keyring.WinHello.Working.{IsWorking, Opens, plaintext_of, opened}
use keyring.WinHello.Working.Runs.{IsHeld}
use keyring.WinHello.Crypto.{encrypt_envelope, seal_envelope, winhello_aad, decrypt_envelope}
use keyring.WinHello.Buffers.{encrypt_cleared, decrypt_cleared}
use keyring.WinHello.Buffers.Rules.{Clears}
use keyring.WinHello.Buffers.Cleared.{envelopes-Clear}
use keyring.WinHello.Laws.{texts, winhello_get-set-remove}
use keyring.Tests.Memory.{Memory, memory, fold, blob_of, takes, written, memory-IsManager}
use keyring.Tests.Toy.{
  toy_json, toy_aad, toy_cipher, toy_key, toy_aad_has_text, unseal-seal, decode-encode, zeros,
  first_off,
}
use keyring.Tests.Hello.{hooks, backend}

length-zeros : (n : ℕ) → length (zeros n) ≡ n
unfolding zeros
length-zeros zero = refl
length-zeros (suc n) = ap suc (length-zeros n)

works : IsWorking toy_cipher toy_json toy_aad hooks backend blob_of toy_key first_off
unfolding toy_cipher toy_key first_off toy_json
works = record {
  random = λ n w. (zeros n, refl, length-zeros n);
  random_spares = λ n w t. refl;
  cipher = λ k h. (k, refl);
  mode = λ x. (x, refl, refl);
  sealed_full = λ g n p a. refl;
  unseals = unseal-seal;
  wraps = λ k w h. (1 ∷ k, refl, refl, refl);
  wrap_spares = λ k w t. refl;
  unwraps = λ x context w. refl;
  unwrap_spares = λ x context w t. refl;
  encodes = λ e h. (_, refl, decode-encode e _ refl refl);
  has_aad = toy_aad_has_text;
  named = refl;
  ensures = λ l h w. refl;
  ensure_spares = λ l h w t. refl;
  opens = λ l h w. refl;
  open_spares = λ l h w t. refl;
  window_spares = λ w t. refl;
}

abbrev envelopes : Session Memory → Bytes → Option Bytes
envelopes =
    texts toy_cipher toy_json toy_aad memory hooks backend blob_of takes memory-IsManager toy_key
      first_off works

abbrev fresh : Session Memory
fresh = record { wrapper = none; world = [] }

abbrev ring : Keyring (Session Memory)
ring = winhello_ring toy_cipher toy_json toy_aad memory hooks backend

abbrev x : Item
x = plain_item (codes "x") (5 ∷ [])

-- A session that holds the key and the item "y".
abbrev before : Session Memory
before = (Backend.set toy_cipher toy_json toy_aad memory hooks backend (codes "y") (6 ∷ []) fresh).1

abbrev after : Session Memory
after = (ring.set x before).1

abbrev removed : Session Memory
removed = (ring.remove (codes "x") after).1

before-Held :
    IsHeld toy_cipher toy_json toy_aad memory hooks backend blob_of takes memory-IsManager toy_key
      first_off works before.wrapper
unfolding Backend.set ensure_wrapper encrypt_envelope seal_envelope marshal validate write
    winhello_aad toy_cipher toy_json toy_key toy_aad list_eq nat_eq store_credential_name takes
before-Held = inr refl

before-Opens :
    Opens toy_cipher toy_json toy_aad backend first_off (codes "y") (envelopes before (codes "y"))
unfolding Backend.set ensure_wrapper encrypt_envelope seal_envelope marshal validate write
    winhello_aad toy_cipher toy_json toy_key toy_aad list_eq nat_eq store_credential_name takes
    blob_of fold written plaintext_of opened parse_envelope first_off
before-Opens = (6 ∷ [], refl)

winhello_get-set-remove_example :
    ((t : Bytes) × (e : Error) × (takes t ≡ some e)
      × ((ring.set x before).0 ≡ err (wrapf "write winhello item %q: %w" e))
      × ((l : Bytes) → envelopes after l ≡ envelopes before l))
    ⊎ (((ring.set x before).0 ≡ ok tt)
        × ((ring.get (codes "x") after).0 ≡ ok x)
        × ((ring.get (codes "y") after).0 ≡ (ring.get (codes "y") before).0)
        × ((ring.remove (codes "x") after).0 ≡ ok tt)
        × ((ring.get (codes "x") removed).0 ≡ err (sentinel err_key_not_found))
        × ((ring.get (codes "y") removed).0 ≡ (ring.get (codes "y") before).0)
        × ((ring.remove (codes "x") removed).0 ≡ err (sentinel err_key_not_found))
        × ((ks : List Bytes) × ((ring.keys after).0 ≡ ok ks)
            × ((l : Bytes) → contains ks l ≡ true → is_some (envelopes after l) ≡ true)))
winhello_get-set-remove_example =
    winhello_get-set-remove toy_cipher toy_json toy_aad memory hooks backend blob_of takes
      memory-IsManager toy_key first_off works x (codes "y") before before-Held before-Opens
      (unfold list_eq nat_eq store_credential_name fold in refl)

envelopes-Clear_example :
    Clears
      (encrypt_cleared toy_cipher toy_json
        (5 ∷ [])
        (3 ∷ [])
        (codes "k")
        (some toy_key)
        (record { world = []; buffers = (4 ∷ []) ∷ [] }))
      (encrypt_envelope toy_cipher toy_json (5 ∷ []) (3 ∷ []) (codes "k") (some toy_key) [])
      ((4 ∷ []) ∷ [])
    × Clears
        (decrypt_cleared toy_cipher toy_json
          (5 ∷ [])
          (3 ∷ [])
          (codes "k")
          (some toy_key)
          (codes "c")
          (record { world = []; buffers = (4 ∷ []) ∷ [] }))
        (decrypt_envelope toy_cipher toy_json
          (5 ∷ [])
          (3 ∷ [])
          (codes "k")
          (some toy_key)
          (codes "c")
          [])
        ((4 ∷ []) ∷ [])
envelopes-Clear_example =
    envelopes-Clear toy_cipher toy_json (5 ∷ []) (3 ∷ []) (codes "k") (codes "c") (some toy_key) []
      ((4 ∷ []) ∷ [])
