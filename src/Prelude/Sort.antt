-- ===== src/Prelude/Sort.antt =====
-- `sort.Strings`: ascending by bytes. Sorting is stable or not to no effect, since equal strings
-- are one value; insertion gives the result.
use mathlib.Core.Path.{◌≡◌, refl, ◌∙◌}
use mathlib.Core.Logic.{ite}
use mathlib.Core.Bool.{Bool, true, false, ◌&&◌, ◌||◌}
use mathlib.Core.List.{List, [], ◌∷◌}
use native.Mathlib.Decide.{dec_lt}
use native.Mathlib.Omega.{arith}
use keyring.Prelude.Equality.{◌==◌, list_eq, nat_eq}
use keyring.Prelude.Control.{if◌then◌else◌}
use keyring.Prelude.Strings.{Bytes, contains}

-- `s <= t` on strings.
unfoldable pub string_le : Bytes → Bytes → Bool
unfolding dec_lt
string_le [] t = true
string_le (c ∷ s) [] = false
string_le (c ∷ s) (d ∷ t) = ite (dec_lt c d) true (c == d && string_le s t)

insert_sorted : Bytes → List Bytes → List Bytes
insert_sorted s [] = s ∷ []
insert_sorted s (t ∷ ts) =
    let rest = insert_sorted s ts in if string_le s t then s ∷ t ∷ ts else t ∷ rest

unfoldable pub sort_strings : List Bytes → List Bytes
unfolding insert_sorted string_le
sort_strings [] = []
sort_strings (s ∷ ss) = insert_sorted s (sort_strings ss)

contains-insert_sorted :
    (s : Bytes) (ts : List Bytes) (a : Bytes)
    → contains (insert_sorted s ts) a ≡ (a == s || contains ts a)
unfolding insert_sorted contains
contains-insert_sorted s [] a = refl
contains-insert_sorted s (t ∷ ts) a = ground (arith, contains-insert_sorted s ts a)

pub contains-sort_strings :
    (ts : List Bytes) (a : Bytes) → contains (sort_strings ts) a ≡ contains ts a
unfolding sort_strings contains
contains-sort_strings [] a = refl
contains-sort_strings (t ∷ ts) a =
    contains-insert_sorted t (sort_strings ts) a ∙ rw (contains-sort_strings ts a)

-- Each string is at most the one behind it.
abbrev pub IsSorted : List Bytes → Type 0
IsSorted [] = Unit
IsSorted (s ∷ []) = Unit
IsSorted (s ∷ t ∷ ts) = (string_le s t ≡ true) × IsSorted (t ∷ ts)

string_le_total : (s t : Bytes) → string_le s t ≡ false → string_le t s ≡ true
unfolding string_le
string_le_total [] t h = cc
string_le_total (c ∷ s) [] h = refl
string_le_total (c ∷ s) (d ∷ t) h = ground (arith, string_le_total s t)

insert_sorted-IsSorted : (s : Bytes) (ts : List Bytes) → IsSorted ts → IsSorted (insert_sorted s ts)
unfolding insert_sorted
insert_sorted-IsSorted s [] h = tt
insert_sorted-IsSorted s (t ∷ []) h = ground (arith, string_le_total s t)
insert_sorted-IsSorted s (t ∷ u ∷ ts) h =
    ground (arith, string_le_total s t, insert_sorted-IsSorted s (u ∷ ts) h.1)

pub sort_strings-IsSorted : (ts : List Bytes) → IsSorted (sort_strings ts)
unfolding sort_strings
sort_strings-IsSorted [] = tt
sort_strings-IsSorted (t ∷ ts) =
    insert_sorted-IsSorted t (sort_strings ts) (sort_strings-IsSorted ts)
