-- ===== src/WinHello/NCrypt/System/Lengths.antt =====
-- The buffers that winhello/ncrypt.go passes to ncrypt.dll, and the lengths that it passes for them.
use Prim.Native.Nat.{◌^◌, ◌-◌}
use keyring.Prelude.{
  zero, suc, ap, sym, subst, ℕ, ◌≡◌, ◌↔◌, refl, ◌<◌, ltb_iff, Bytes, codes, List, [], ◌∷◌, length,
  is_empty, Bool-cases, inl, inr, arith,
}
use keyring.Exec.{Exec, Result, ok, err, continue, rethrow}
use keyring.WinHello.NCrypt.{Handle, ncrypt_error}
use keyring.WinHello.NCrypt.System.{
  Library, Layout, uint32, zeros, check_dword_length, ncrypt_call, ncrypt_result, text,
  ncrypt_crypt, ncrypt_set_property,
}

-- A buffer and the length that was passed for it.
pub record Passed : Type 0 where
  pub buffer : Bytes
  pub size : ℕ

abbrev pub Log : Type 0
Log = List Passed

-- A library that answers as it likes from the buffers that it has been given.
pub record Answers : Type 0 where
  pub handle : Log → ℕ × Handle
  pub status : Log → ℕ
  pub crypted : Log → ℕ × (Bytes × ℕ)

unfoldable pub logged : Answers → Library Log
logged a = record {
  open_storage_provider = λ n f t. (a.handle t, t);
  open_key = λ h n s f t. (a.handle t, t);
  create_persisted_key = λ h g n s f t. (a.handle t, t);
  set_property = λ h p v n f t. (a.status t, record { buffer = v; size = n } ∷ t);
  finalize_key = λ h f t. (a.status t, t);
  delete_key = λ h f t. (a.status t, t);
  free_object = λ h t. (a.status t, t);
  encrypt = λ h i n o m f t.
      (a.crypted t, record { buffer = i; size = n } ∷ record { buffer = o; size = m } ∷ t);
  decrypt = λ h i n o m f t.
      (a.crypted t, record { buffer = i; size = n } ∷ record { buffer = o; size = m } ∷ t);
}

-- The length that is passed is the buffer's, and a DWORD holds it.
abbrev pub AreSized : Log → Type 0
AreSized [] = Unit
AreSized (p ∷ t) = (p.size ≡ length p.buffer) × (length p.buffer < 2 ^ 32) × AreSized t

-- The check lets through just what a DWORD holds.
pub check_dword_length_iff :
    (name : Bytes) (n : ℕ) → (check_dword_length name n ≡ ok tt) ↔ (uint32 n ≡ n)
unfolding check_dword_length
check_dword_length_iff name n =
    (λ h. ground (arith, ltb_iff (2 ^ 32 - 1) n), λ h. ground (arith, ltb_iff (2 ^ 32 - 1) n))

module _ {A B : Type 0} where
  AreSized-continue :
      (r : Result A) (f : A → Exec Log B) (t : Log)
      → AreSized t
      → ((x : A) → r ≡ ok x → AreSized (f x t).1)
      → AreSized (continue r f t).1
  AreSized-continue (ok x) f t h hf = hf x refl
  AreSized-continue (err e) f t h hf = h

-- A DWORD holds the length.
abbrev Fits : Bytes → Type 0
Fits b = (uint32 (length b) ≡ length b) × (length b < 2 ^ 32)

dword : (name value : Bytes) → check_dword_length name (length value) ≡ ok tt → Fits value
dword name value h = (
  (check_dword_length_iff name (length value)).0 h,
  omega (arith, (check_dword_length_iff name (length value)).0 h),
)

length-zeros : (n : ℕ) → length (zeros n) ≡ n
unfolding zeros
length-zeros zero = refl
length-zeros (suc n) = ap suc (length-zeros n)

zeros_fit : (n : ℕ) → Fits (zeros (uint32 n))
zeros_fit n = (omega (arith, length-zeros (uint32 n)), omega (arith, length-zeros (uint32 n)))

state_of_status :
    {A : Type 0} (r : Result (Unit {0})) (x : A) (t : Log) → (continue r (λ u w. (ok x, w)) t).1 ≡ t
state_of_status (ok u) x t = refl
state_of_status (err e) x t = refl

module _ (a : Answers) where
  abbrev library : Library Log
  library = logged a

  abbrev crypt : Bytes → Bytes → Handle → ℕ → Exec Log (Bytes × ℕ)
  crypt input output key flags =
      ncrypt_result
        (library.encrypt key input (uint32 (length input)) output (uint32 (length output)) flags)

  result-AreSized :
      (key : Handle) (input output : Bytes) (flags : ℕ) (t : Log)
      → Fits input
      → Fits output
      → AreSized t
      → AreSized (crypt input output key flags t).1
  unfolding ncrypt_result logged
  result-AreSized key input output flags t (e₁, l₁) (e₂, l₂) h =
      subst AreSized (sym (state_of_status (ncrypt_error (a.crypted t).0) (a.crypted t).1 _))
        (e₁, l₁, (e₂, l₂, h))

  crypt-AreSized :
      (key : Handle) (input : Bytes) (flags : ℕ) (t : Log)
      → AreSized t
      → AreSized (ncrypt_crypt library.encrypt key input flags t).1
  unfolding ncrypt_crypt
  crypt-AreSized key input flags t h = elim (Bool-cases (is_empty input)) [
    | inl e ↦ rw e h
    | inr e ↦ rw e (
        AreSized-continue (check_dword_length (codes "input") (length input)) _ t h λ u checked.
          let fits = dword (codes "input") input checked in
          let first = result-AreSized key input [] flags t fits (refl, omega arith) h in
          AreSized-continue (crypt input [] key flags t).0 _ _ first λ asked _.
            let output = zeros (uint32 asked.1) in
            AreSized-continue (check_dword_length (codes "output") (length output)) _ _ first λ v _.
              let second =
                result-AreSized key input output flags _ fits (zeros_fit asked.1) first in
              AreSized-continue (crypt input output key flags _).0 _ _ second λ written _. second)
  ]

  -- Whatever the library answers, each length that setting a property, encrypting and decrypting
  -- pass to it for a buffer is the buffer's own, and a DWORD holds it, so that no length is cut to
  -- 32 bits; this goes on from every history of calls that has it.
  pub buffers-AreSized :
      (layout : Layout) (handle : Handle) (property value : Bytes) (flags : ℕ) (t : Log)
      → AreSized t
      → AreSized (ncrypt_set_property library layout handle property value flags t).1
        × (AreSized (ncrypt_crypt library.encrypt handle value flags t).1
            × AreSized (ncrypt_crypt library.decrypt handle value flags t).1)
  unfolding ncrypt_set_property text ncrypt_call logged
  buffers-AreSized layout handle property value flags t h = (
    AreSized-continue (rethrow _ (layout.utf16 property)) _ t h λ name _.
        AreSized-continue (check_dword_length property (length value)) _ t h
          λ u checked. let (same, small) = dword property value checked in (same, small, h),
    (crypt-AreSized handle value flags t h, crypt-AreSized handle value flags t h),
  )
