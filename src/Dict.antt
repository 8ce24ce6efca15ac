-- ===== src/Dict.antt =====
-- Go's maps with string keys, as association lists. Go gives the keys in no fixed order.
use keyring.Prelude.{
  ◌≡◌, refl, Option, none, some, List, [], ◌∷◌, arith, contains, Bytes, list_eq, nat_eq, ◌==◌,
  is_some, if◌then◌else◌,
}

abbrev pub Dict : Type 0 → Type 0
Dict V = List (Bytes × V)

module _ {V : Type 0} where
  unfoldable pub lookup : Bytes → Dict V → Option V
  lookup k [] = none
  lookup k ((j, v) ∷ d) = if j == k then some v else lookup k d

  -- `delete(d, k)`.
  unfoldable pub erase : Bytes → Dict V → Dict V
  erase k [] = []
  erase k ((j, v) ∷ d) = let rest = erase k d in if j == k then rest else (j, v) ∷ rest

  -- `d[k] = v`.
  unfoldable pub insert : Bytes → V → Dict V → Dict V
  unfolding erase
  insert k v d = (k, v) ∷ erase k d

  -- `for key := range d`.
  unfoldable pub keys_of : Dict V → List Bytes
  keys_of [] = []
  keys_of ((k, v) ∷ d) = k ∷ keys_of d

  pub lookup-erase :
      (k j : Bytes) (d : Dict V) → lookup j (erase k d) ≡ (if k == j then none else lookup j d)
  unfolding lookup erase
  lookup-erase k j [] = ground arith
  lookup-erase k j ((i, v) ∷ d) = ground (arith, lookup-erase k j d)

  pub lookup-insert :
      (k j : Bytes) (v : V) (d : Dict V)
      → lookup j (insert k v d) ≡ (if k == j then some v else lookup j d)
  unfolding lookup insert
  lookup-insert k j v d = ground (arith, lookup-erase k j d)

  pub contains-keys_of : (d : Dict V) (k : Bytes) → contains (keys_of d) k ≡ is_some (lookup k d)
  unfolding lookup keys_of contains
  contains-keys_of [] k = refl
  contains-keys_of ((j, v) ∷ d) k = ground (arith, contains-keys_of d k)
