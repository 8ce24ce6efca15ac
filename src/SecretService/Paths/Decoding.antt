-- ===== src/SecretService/Paths/Decoding.antt =====
-- What `decodeKeyringString` (secretservice.go) makes of a name, against a description of escaped
-- names.
use native.Mathlib.Decide.{ℕ_discrete}
use keyring.Prelude.{
  ℕ, ◌≡◌, ◌≢◌, ◌↔◌, ◌⊎◌, inl, inr, refl, sym, subst, ◌∙◌, Bytes, Option, none, some, length, ◌<◌,
  [], ◌∷◌, ◌++◌, false, ◌==◌, nat_eq, ==_refl, arith,
}
use keyring.SecretService.Paths.{
  rune_bytes, hex_byte, prepend, write_byte, decode_rest, or_source, decode_keyring_string,
}

-- The first text escapes the second: a byte other than an underscore stands for the code point of
-- its number, and an underscore with two hexadecimal digits for the byte of that number.
pub data Escapes : Bytes → Bytes → Type 0 where
  ends : Escapes [] []
  plain : (c : ℕ) (s t : Bytes) → c ≢ b'_' → Escapes s t → Escapes (c ∷ s) (rune_bytes c ++ t)
  escaped :
      (a b x : ℕ) (s t : Bytes)
      → hex_byte a b ≡ some x
      → Escapes s t
      → Escapes (b'_' ∷ a ∷ b ∷ s) (x ∷ t)

not_underscore : (c : ℕ) → c ≢ b'_' → (c == b'_') ≡ false
not_underscore c n = ground arith

decode_plain :
    (c : ℕ) (s : Bytes) → c ≢ b'_' → decode_rest (c ∷ s) ≡ prepend (rune_bytes c) (decode_rest s)
unfolding decode_rest
decode_plain c [] n = rw (not_underscore c n) refl
decode_plain c (a ∷ []) n = rw (not_underscore c n) refl
decode_plain c (a ∷ b ∷ s) n = rw (not_underscore c n) refl

decode_escaped :
    (a b : ℕ) (s : Bytes)
    → decode_rest (b'_' ∷ a ∷ b ∷ s) ≡ write_byte (hex_byte a b) (decode_rest s)
unfolding decode_rest
decode_escaped a b s = rw (==_refl {A = ℕ} b'_') refl

decode-Escapes : (s t : Bytes) → Escapes s t → decode_rest s ≡ some t
unfolding prepend write_byte
decode-Escapes [] [] ends = unfold decode_rest in refl
decode-Escapes _ _ (plain c s t n e) = rw (decode_plain c s n, decode-Escapes s t e) refl
decode-Escapes _ _ (escaped a b x s t h e) = rw (decode_escaped a b s, h, decode-Escapes s t e) refl

-- A text that the loop reads is escaped, and one that it does not is nothing's escaping.
abbrev Reading : Bytes → Option Bytes → Type 0
Reading s none = Unit
Reading s (some t) = Escapes s t

Reading-prepend :
    (c : ℕ) (s : Bytes) (o : Option Bytes)
    → c ≢ b'_'
    → Reading s o
    → Reading (c ∷ s) (prepend (rune_bytes c) o)
unfolding prepend
Reading-prepend c s none n r = tt
Reading-prepend c s (some t) n r = plain c s t n r

Reading-write_byte :
    (a b : ℕ) (s : Bytes) (h : Option ℕ) (o : Option Bytes)
    → hex_byte a b ≡ h
    → Reading s o
    → Reading (b'_' ∷ a ∷ b ∷ s) (write_byte h o)
unfolding write_byte prepend
Reading-write_byte a b s none o e r = tt
Reading-write_byte a b s (some x) none e r = tt
Reading-write_byte a b s (some x) (some t) e r = escaped a b x s t e r

underscore : (c : ℕ) → (c ≡ b'_') ⊎ (c ≢ b'_')
underscore c = elim (ℕ_discrete c b'_') [ yes e ↦ inl e | no n ↦ inr n ]

decode_cut : (s : Bytes) → length s < 2 → decode_rest (b'_' ∷ s) ≡ none
unfolding decode_rest
decode_cut [] h = rw (==_refl {A = ℕ} b'_') refl
decode_cut (a ∷ []) h = rw (==_refl {A = ℕ} b'_') refl
decode_cut (a ∷ b ∷ s) h = absurd (omega (arith, h))

Reading-plain :
    (c : ℕ) (s : Bytes)
    → c ≢ b'_'
    → Reading s (decode_rest s)
    → Reading (c ∷ s) (decode_rest (c ∷ s))
Reading-plain c s n r = rw (decode_plain c s n) (Reading-prepend c s (decode_rest s) n r)

Reading-cut : (s : Bytes) → length s < 2 → Reading (b'_' ∷ s) (decode_rest (b'_' ∷ s))
Reading-cut s h = rw (decode_cut s h) tt

decode_rest-Reading : (s : Bytes) → Reading s (decode_rest s)
decode_rest-Reading [] = unfold decode_rest in ends
decode_rest-Reading (c ∷ []) = elim (underscore c) [
  | inl e ↦ rw e (Reading-cut [] (omega arith))
  | inr n ↦ Reading-plain c [] n (decode_rest-Reading [])
]
decode_rest-Reading (c ∷ a ∷ []) = elim (underscore c) [
  | inl e ↦ rw e (Reading-cut (a ∷ []) (omega arith))
  | inr n ↦ Reading-plain c (a ∷ []) n (decode_rest-Reading (a ∷ []))
]
decode_rest-Reading (c ∷ a ∷ b ∷ s) = elim (underscore c) [
  | inl e ↦ rw e (
      rw (decode_escaped a b s)
        (Reading-write_byte a b s (hex_byte a b) (decode_rest s) refl (decode_rest-Reading s)))
  | inr n ↦ Reading-plain c (a ∷ b ∷ s) n (decode_rest-Reading (a ∷ b ∷ s))
]

-- The text that the first escapes, or the first itself if it escapes none.
abbrev pub Decoded : Bytes → Bytes → Type 0
Decoded src dst = Escapes src dst ⊎ ((dst ≡ src) × ((t : Bytes) → ¬ Escapes src t))

some-injective : {A : Type 0} (x y : A) → ◌≡◌ {A = Option A} (some x) (some y) → x ≡ y
some-injective x y h = cc

none≢some : {A : Type 0} {x : A} → ◌≡◌ {A = Option A} none (some x) → ⊥
none≢some h = cc

outcome :
    (src dst : Bytes) (o : Option Bytes)
    → decode_rest src ≡ o
    → Reading src o
    → (or_source src o ≡ dst) ↔ Decoded src dst
unfolding or_source
outcome src dst none e r = (
  λ h. inr (sym h, λ t x. none≢some (sym e ∙ decode-Escapes src t x)),
  λ h. elim h [
    | inl x ↦ absurd (none≢some (sym e ∙ decode-Escapes src dst x))
    | inr (same, n) ↦ sym same
  ],
)
outcome src dst (some t) e r = (
  λ h. inl (subst (Escapes src) h r),
  λ h. elim h [
    | inl x ↦ some-injective t dst (sym e ∙ decode-Escapes src dst x)
    | inr (same, n) ↦ absurd (n t r)
  ],
)

-- `decodeKeyringString` returns the text that its argument escapes, and its argument as it is if
-- that escapes no text, for an underscore with no two hexadecimal digits behind it.
pub decode_keyring_string_iff :
    (src dst : Bytes) → (decode_keyring_string src ≡ dst) ↔ Decoded src dst
unfolding decode_keyring_string
decode_keyring_string_iff src dst = outcome src dst (decode_rest src) refl (decode_rest-Reading src)
