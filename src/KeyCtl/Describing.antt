-- ===== src/KeyCtl/Describing.antt =====
-- What `keyctlDescribe` (keyctl.go) takes for the type and the description of a key.
use keyring.Prelude.{
  ◌≡◌, refl, ◌==◌, Bool-cases, inl, inr, ap, ◌∙◌, Bytes, codes, false, List, [], ◌∷◌, ◌++◌, arith,
  contains, list_eq, nat_eq,
}
use keyring.Dict.{Dict, lookup, insert, erase, lookup-insert}
use keyring.KeyCtl.Description.{add_byte, split_fields, name_fields, described, field_of, or_empty}

split_fields-append :
    (a rest : Bytes)
    → contains a b';' ≡ false
    → split_fields (a ++ (codes ";" ++ rest)) ≡ (a ∷ (split_fields rest).0, (split_fields rest).1)
unfolding split_fields contains add_byte
split_fields-append [] rest h = ground arith
split_fields-append (c ∷ a) rest h = ground (arith, split_fields-append a rest)

split_fields_last : (d : Bytes) → contains d b';' ≡ false → split_fields d ≡ ([], d)
unfolding split_fields contains add_byte
split_fields_last [] h = refl
split_fields_last (c ∷ d) h = ground (arith, split_fields_last d)

-- The last piece is what is behind the last semicolon.
split_fields_behind :
    (head d : Bytes)
    → contains d b';' ≡ false
    → (piece : Bytes) × (pieces : List Bytes) × (split_fields (head ++ (codes ";" ++ d))
        ≡ (piece ∷ pieces, d))
unfolding split_fields add_byte
split_fields_behind [] d h = ([], [], ground (arith, split_fields_last d h))
split_fields_behind (c ∷ head) d h =
    let (piece, pieces, same) = split_fields_behind head d h in
    elim (Bool-cases (c == b';')) [
      | inl e ↦ ([], piece ∷ pieces, ground (arith, same, e))
      | inr e ↦ (c ∷ piece, pieces, ground (arith, same, e))
    ]

name_fields_keeps :
    (names fields : List Bytes) (x : Dict Bytes) (k : Bytes)
    → contains names k ≡ false
    → lookup k (name_fields names fields x) ≡ lookup k x
unfolding name_fields contains
name_fields_keeps [] fields x k h = refl
name_fields_keeps (n ∷ names) [] x k h = refl
name_fields_keeps (n ∷ names) (f ∷ fields) x k h =
    ground (arith, name_fields_keeps names fields (insert n f x) k, lookup-insert n k f x)

-- The description is read from behind the last semicolon of what the kernel returns, so that of a
-- key whose description has one, only what follows it is left.
pub field_of-described :
    (head d : Bytes)
    → contains d b';' ≡ false
    → field_of (codes "description") (described (head ++ (codes ";" ++ d))) ≡ d
unfolding field_of described or_empty contains list_eq nat_eq
field_of-described head d h =
    let (piece, pieces, same) = split_fields_behind head d h in
    rw same (
      ap or_empty (
        name_fields_keeps (codes "type" ∷ codes "uid" ∷ codes "gid" ∷ codes "perm" ∷ [])
          (piece ∷ pieces) (insert (codes "description") d []) (codes "description") refl
        ∙ lookup-insert (codes "description") (codes "description") d []))

-- Of four fields without semicolons before the description, the type is the first.
field_of-type :
    (t u g p d : Bytes)
    → contains t b';' ≡ false
    → contains u b';' ≡ false
    → contains g b';' ≡ false
    → contains p b';' ≡ false
    → field_of (codes "type") (
        described
          (t ++ (codes ";" ++ (u ++ (codes ";" ++ (g ++ (codes ";" ++ (p ++ (codes ";" ++ d)))))))))
      ≡ t
unfolding field_of described or_empty name_fields lookup insert erase list_eq nat_eq
field_of-type t u g p d ht hu hg hp =
    rw
      (
        split_fields-append t _ ht,
        split_fields-append u _ hu,
        split_fields-append g _ hg,
        split_fields-append p _ hp,
      )
      refl
