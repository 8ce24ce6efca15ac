-- ===== src/KeyCtl/Description.antt =====
-- What keyctl.go reads from the bytes of the kernel: the description of a key and a list of keys.
use Prim.Native.Nat.{◌%◌}
use keyring.Prelude.{
  ℕ, Bytes, codes, Option, none, some, List, [], ◌∷◌, length, not, ◌==◌, list_eq, nat_eq,
  if◌then◌else◌,
}
use keyring.Errors.{message}
use keyring.Exec.{Result, ok, err}
use keyring.Dict.{Dict, lookup, insert}
use keyring.KeyCtl.Syscalls.{Serial}

-- `strings.Split(s, ";")`, its last piece apart: it has at least one.
unfoldable pub add_byte : ℕ → List Bytes × Bytes → List Bytes × Bytes
add_byte b ([], last) = ([], b ∷ last)
add_byte b (piece ∷ pieces, last) = ((b ∷ piece) ∷ pieces, last)

unfoldable pub split_fields : Bytes → List Bytes × Bytes
unfolding add_byte
split_fields [] = ([], [])
split_fields (b ∷ bs) =
    let rest = split_fields bs in if b == b';' then ([] ∷ rest.0, rest.1) else add_byte b rest

-- The names that the fields before the last are stored under, as long as there are names.
unfoldable pub name_fields : List Bytes → List Bytes → Dict Bytes → Dict Bytes
name_fields (name ∷ names) (field ∷ fields) data' =
    name_fields names fields (insert name field data')
name_fields names fields data' = data'

unfoldable pub described : Bytes → Dict Bytes
unfolding name_fields split_fields
described description =
    let (fields, last) = split_fields description in
    name_fields (codes "type" ∷ codes "uid" ∷ codes "gid" ∷ codes "perm" ∷ []) fields
      (insert (codes "description") last [])

-- What a Go map shows under a key: the empty string if it is missing.
unfoldable pub or_empty : Option Bytes → Bytes
or_empty none = []
or_empty (some b) = b

unfoldable pub field_of : Bytes → Dict Bytes → Bytes
unfolding or_empty
field_of name data' = or_empty (lookup name data')

-- Four bytes at a time, as the machine orders them.
words : (ℕ → ℕ → ℕ → ℕ → Serial) → Bytes → List Serial
words native (a ∷ b ∷ c ∷ d ∷ rest) = native a b c d ∷ words native rest
words native rest = []

unfoldable pub convert_key_buffer : (ℕ → ℕ → ℕ → ℕ → Serial) → Bytes → Result (List Serial)
unfolding words
convert_key_buffer native buffer =
    if not (length buffer % 4 == 0)
    then err (message "buffer size %d not a multiple of 4")
    else ok (words native buffer)
