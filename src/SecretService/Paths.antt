-- ===== src/SecretService/Paths.antt =====
-- secretservice.go: `decodeKeyringString`, which reads the names that D-Bus paths escape.
pub mod Decoding
use keyring.Prelude.{
  ℕ, Bytes, Option, none, some, [], ◌∷◌, ◌++◌, ◌+◌, ltb, not, ◌&&◌, ◌==◌, list_eq, nat_eq,
  if◌then◌else◌,
}
use Prim.Native.Nat.{◌*◌, ◌-◌, ◌%◌, ◌/◌}

-- `string(c)` at a byte: the UTF-8 of the code point of that number.
unfoldable pub rune_bytes : ℕ → Bytes
rune_bytes c = if ltb c 128 then c ∷ [] else (192 + c / 64) ∷ (128 + c % 64) ∷ []

-- A digit that `hex.DecodeString` takes.
hex_digit : ℕ → Option ℕ
hex_digit c =
    if not (ltb c b'0') && not (ltb b'9' c)
    then some (c - b'0')
    else if not (ltb c b'a') && not (ltb b'f' c)
    then some (c - b'a' + 10)
    else if not (ltb c b'A') && not (ltb b'F' c)
    then some (c - b'A' + 10)
    else none

two_digits : Option ℕ → Option ℕ → Option ℕ
two_digits (some high) (some low) = some (16 * high + low)
two_digits high low = none

-- `hex.DecodeString` at two bytes.
unfoldable pub hex_byte : ℕ → ℕ → Option ℕ
unfolding hex_digit two_digits
hex_byte a b = two_digits (hex_digit a) (hex_digit b)

prepend : Bytes → Option Bytes → Option Bytes
prepend p none = none
prepend p (some t) = some (p ++ t)

write_byte : Option ℕ → Option Bytes → Option Bytes
unfolding prepend
write_byte none t = none
write_byte (some x) t = prepend (x ∷ []) t

-- The loop, from where this much of `src` is left; `none` where the code returns `src`.
unfoldable pub decode_rest : Bytes → Option Bytes
unfolding prepend write_byte
decode_rest [] = some []
decode_rest (c ∷ []) = if c == b'_' then none else prepend (rune_bytes c) (some [])
decode_rest (c ∷ a ∷ []) =
    let plain = decode_rest (a ∷ []) in if c == b'_' then none else prepend (rune_bytes c) plain
decode_rest (c ∷ a ∷ b ∷ rest) =
    let plain = decode_rest (a ∷ b ∷ rest) in
    let behind = decode_rest rest in
    if c == b'_' then write_byte (hex_byte a b) behind else prepend (rune_bytes c) plain

or_source : Bytes → Option Bytes → Bytes
or_source src none = src
or_source src (some dst) = dst

unfoldable pub decode_keyring_string : Bytes → Bytes
unfolding or_source
decode_keyring_string src = or_source src (decode_rest src)
