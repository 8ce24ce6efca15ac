-- ===== src/Tests/Memory.antt =====
-- A credential manager in memory, which looks at no letter's case and takes blobs of up to 2560
-- bytes.
use keyring.Prelude.{
  ℕ, ◌≡◌, refl, Bytes, true, Option, none, some, [], ◌∷◌, ◌+◌, ◌&&◌, length, ltb, list_eq, nat_eq,
  contains, arith, is_some, ==_refl, Bool-cases, inl, inr, if◌then◌else◌,
}
use keyring.Errors.{Error, errno}
use keyring.Exec.{ok, err}
use keyring.Contract.{accepted}
use keyring.Dict.{Dict, keys_of}
use keyring.Credentials.{Credentials, IsManager, same_name, element_not_found, read_blob}

abbrev pub Memory : Type 0
Memory = Dict Bytes

unfoldable pub small_letter : ℕ → ℕ
small_letter b = if ltb 64 b && ltb b 91 then b + 32 else b

unfoldable pub fold : Bytes → Bytes
unfolding small_letter
fold [] = []
fold (b ∷ bs) = small_letter b ∷ fold bs

unfoldable pub blob_of : Memory → Bytes → Option Bytes
blob_of [] t = none
blob_of ((u, b) ∷ d) t = if same_name fold u t then some b else blob_of d t

unfoldable pub erased : Bytes → Memory → Memory
erased t [] = []
erased t ((u, b) ∷ d) = let rest = erased t d in if same_name fold u t then rest else (u, b) ∷ rest

unfoldable pub takes : Bytes → Option Error
takes b = if ltb 2560 (length b) then some (errno 1783) else none

unfoldable pub written : Bytes → Bytes → Memory → Memory
written t b d = if is_some (takes b) then d else (t, b) ∷ erased t d

abbrev pub memory : Credentials Memory
memory = record {
  get_generic_credential = λ t d. (read_blob (blob_of d t), d);
  write = λ t b d. (accepted (takes b), written t b d);
  delete =
      λ t d. (if is_some (blob_of d t) then ok tt else err (errno element_not_found), erased t d);
  list = λ d. (ok (keys_of d), d);
}

same_blob : (d : Memory) (t u : Bytes) → same_name fold t u ≡ true → blob_of d u ≡ blob_of d t
unfolding blob_of
same_blob [] t u h = refl
same_blob ((v, b) ∷ d) t u h = ground (arith, same_blob d t u h)

blob_of-erased :
    (t u : Bytes) (d : Memory)
    → blob_of (erased t d) u ≡ (if same_name fold t u then none else blob_of d u)
unfolding blob_of erased
blob_of-erased t u [] = ground arith
blob_of-erased t u ((v, b) ∷ d) = ground (arith, blob_of-erased t u d)

list_sound : (d : Memory) (t : Bytes) → contains (keys_of d) t ≡ true → is_some (blob_of d t) ≡ true
unfolding blob_of keys_of contains
list_sound [] t h = h
list_sound ((v, b) ∷ d) t h = ground (arith, list_sound d t)

list_complete :
    (d : Memory) (t : Bytes)
    → is_some (blob_of d t) ≡ true
    → (u : Bytes) × (contains (keys_of d) u ≡ true) × (same_name fold t u ≡ true)
unfolding blob_of keys_of contains
list_complete [] t h = cc
list_complete ((v, b) ∷ d) t h = elim (Bool-cases (same_name fold v t)) [
  | inl e ↦ (v, ground (arith, ==_refl v), ground (arith, e))
  | inr e ↦
      let (u, there, same) = list_complete d t (ground (arith, e, h)) in
      (u, ground (arith, there), same)
]

pub memory-IsManager : (d : Memory) → IsManager memory fold blob_of takes d
unfolding written
memory-IsManager d = record {
  same_blob = same_blob d;
  get_result = λ t. refl;
  get_blob = λ t u. refl;
  write_result = λ t b. refl;
  write_blob = λ t b u. unfold blob_of in ground (arith, blob_of-erased t u d);
  delete_result = λ t. refl;
  delete_blob = λ t u. blob_of-erased t u d;
  names = keys_of d;
  list_result = refl;
  list_sound = list_sound d;
  list_complete = list_complete d;
  list_blob = λ u. refl;
}
