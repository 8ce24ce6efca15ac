-- ===== src/Prelude/Strings.antt =====
-- Go strings and byte slices are lists of byte values; the functions of package `strings` and
-- `slices` that the program calls.
use Prim.Native.Nat.{ℕ, zero, suc, ◌+◌}
use Prim.Native.Char.{code}
use Prim.Native.String.{String}
use mathlib.Core.Path.{◌≡◌, refl, ap}
use mathlib.Core.Bool.{Bool, true, false, ◌&&◌, ◌||◌}
use mathlib.Core.List.{List, [], ◌∷◌, ◌++◌}
use native.Mathlib.Omega.{arith}
use keyring.Prelude.Equality.{Eq, ◌==◌, nat_eq}
use keyring.Prelude.Control.{if◌then◌else◌}

abbrev pub Bytes : Type 0
Bytes = List ℕ

-- The code points of a text literal: its bytes, since the program's literals are ASCII.
abbrev pub codes : String → Bytes
codes String.[] = []
codes (String.◌∷◌ c s) = code c ∷ codes s

abbrev pub length {ℓ} : {A : Type ℓ} → List A → ℕ
length [] = 0
length (x ∷ xs) = suc (length xs)

pub length-append {ℓ} : {A : Type ℓ} (xs ys : List A) → length (xs ++ ys) ≡ length xs + length ys
length-append [] ys = omega arith
length-append (x ∷ xs) ys = omega (arith, length-append xs ys)

-- `s[:n]`, where `n` is at most the length.
unfoldable pub first_bytes : ℕ → Bytes → Bytes
first_bytes zero s = []
first_bytes (suc n) [] = []
first_bytes (suc n) (b ∷ s) = b ∷ first_bytes n s

pub first_bytes-length : (s : Bytes) → first_bytes (length s) s ≡ s
unfolding first_bytes
first_bytes-length [] = refl
first_bytes-length (b ∷ s) = ap (λ (x : Bytes). b ∷ x) (first_bytes-length s)

pub first_bytes-append : (s t : Bytes) → first_bytes (length s) (s ++ t) ≡ s
unfolding first_bytes
first_bytes-append [] t = refl
first_bytes-append (b ∷ s) t = ap (λ (x : Bytes). b ∷ x) (first_bytes-append s t)

-- `s == ""` and `len(s) == 0`.
abbrev pub is_empty {ℓ} : {A : Type ℓ} → List A → Bool
is_empty [] = true
is_empty (x ∷ xs) = false

-- A string, or another in its place if it is empty.
abbrev pub or_default : Bytes → Bytes → Bytes
or_default [] d = d
or_default (b ∷ bs) d = b ∷ bs

-- `slices.Contains`.
unfoldable pub contains {ℓ} : {A : Type ℓ} ⦃e : Eq A⦄ → List A → A → Bool
contains [] a = false
contains (x ∷ xs) a = a == x || contains xs a

-- `strings.HasPrefix(s, prefix)`.
unfoldable pub has_prefix : Bytes → Bytes → Bool
has_prefix s [] = true
has_prefix [] (p ∷ ps) = false
has_prefix (c ∷ s) (p ∷ ps) = c == p && has_prefix s ps

-- What is left of `s` behind as many bytes as `prefix` has.
unfoldable pub drop_length : Bytes → Bytes → Bytes
drop_length s [] = s
drop_length [] (p ∷ ps) = []
drop_length (c ∷ s) (p ∷ ps) = drop_length s ps

-- `strings.TrimPrefix(s, prefix)`.
unfoldable pub trim_prefix : Bytes → Bytes → Bytes
unfolding has_prefix drop_length
trim_prefix s prefix = if has_prefix s prefix then drop_length s prefix else s

pub has_prefix-append : (p s : Bytes) → has_prefix (p ++ s) p ≡ true
unfolding has_prefix
has_prefix-append [] s = refl
has_prefix-append (c ∷ p) s = ground (arith, has_prefix-append p s)

drop_length-append : (p s : Bytes) → drop_length (p ++ s) p ≡ s
unfolding drop_length
drop_length-append [] s = refl
drop_length-append (c ∷ p) s = drop_length-append p s

pub trim_prefix-append : (p s : Bytes) → trim_prefix (p ++ s) p ≡ s
unfolding trim_prefix
trim_prefix-append p s = ground (arith, has_prefix-append p s, drop_length-append p s)

-- A string that has the prefix is the prefix with the rest behind it.
append-drop_length : (s p : Bytes) → has_prefix s p ≡ true → p ++ drop_length s p ≡ s
unfolding has_prefix drop_length
append-drop_length s [] h = refl
append-drop_length [] (p ∷ ps) h = cc
append-drop_length (c ∷ s) (p ∷ ps) h = ground (arith, append-drop_length s ps)

pub append-trim_prefix : (s p : Bytes) → has_prefix s p ≡ true → p ++ trim_prefix s p ≡ s
unfolding trim_prefix
append-trim_prefix s p h = ground (arith, append-drop_length s p)

pub append_cancel_left {ℓ} : {A : Type ℓ} (p s t : List A) → p ++ s ≡ p ++ t → s ≡ t
append_cancel_left [] s t h = h
append_cancel_left (c ∷ p) s t h = append_cancel_left p s t (cc)

pub contains-append {ℓ} :
    {A : Type ℓ} ⦃e : Eq A⦄ (xs ys : List A) (a : A)
    → contains (xs ++ ys) a ≡ (contains xs a || contains ys a)
unfolding contains
contains-append [] ys a = refl
contains-append (x ∷ xs) ys a = ground (arith, contains-append xs ys a)
