-- ===== src/OnePassword/Connect/Changes.antt =====
-- What changes of a vault do to the keyring items under a title (opconnect.go).
use keyring.Prelude.{
  ◌≡◌, refl, ap, sym, ◌∙◌, Bytes, true, false, some, List, [], ◌∷◌, ◌++◌, contains, contains-append,
  arith, Bool-cases, inl, inr, ◌==◌, list_eq, nat_eq,
}
use keyring.Api.{ItemCodec}
use keyring.WinHello.Window.{Ask}
use keyring.OnePassword.Sdk.{OpItem}
use keyring.OnePassword.Connect.Sdk.{ConnectItem, ConnectSdk}
use keyring.OnePassword.Connect.{OpConnectKeyring}
use keyring.OnePassword.Connect.Server.{titled, find, ids, AreDistinct, replaced}
use keyring.OnePassword.Connect.Vault.{
  hydrated, hydrated-nil, under, counts, passed, Counts-cases, contains-ids-under,
}

ids-append : (xs ys : List ConnectItem) → ids (xs ++ ys) ≡ ids xs ++ ids ys
unfolding ids
ids-append [] ys = refl
ids-append (i ∷ xs) ys = ap (λ (l : List Bytes). i.id ∷ l) (ids-append xs ys)

pub AreDistinct-append :
    (items : List ConnectItem) (n : ConnectItem)
    → contains (ids items) n.id ≡ false
    → AreDistinct items
    → AreDistinct (items ++ n ∷ [])
unfolding ids contains
AreDistinct-append [] n new d = (refl, tt)
AreDistinct-append (i ∷ items) n new (fresh, d) = (
  ground (arith, ids-append items (n ∷ []), contains-append (ids items) (ids (n ∷ [])) i.id),
  AreDistinct-append items n (ground arith) d,
)

ids-replaced : (n : ConnectItem) (items : List ConnectItem) → ids (replaced n items) ≡ ids items
unfolding ids replaced
ids-replaced n [] = refl
ids-replaced n (i ∷ items) = ground (arith, ids-replaced n items)

pub AreDistinct-replaced :
    (n : ConnectItem) (items : List ConnectItem)
    → AreDistinct items
    → AreDistinct (replaced n items)
unfolding replaced
AreDistinct-replaced n [] d = tt
AreDistinct-replaced n (i ∷ items) (fresh, d) = elim (Bool-cases (i.id == n.id)) [
  | inl e ↦ rw e (ground (arith, ids-replaced n items), AreDistinct-replaced n items d)
  | inr e ↦ rw e (rw (ids-replaced n items) fresh, AreDistinct-replaced n items d)
]

replaced_absent :
    (n : ConnectItem) (items : List ConnectItem)
    → contains (ids items) n.id ≡ false
    → replaced n items ≡ items
unfolding replaced ids contains
replaced_absent n [] h = refl
replaced_absent n (i ∷ items) h = ground (arith, replaced_absent n items)

module _ {W : Type 0} (getenv : Bytes → Ask W Bytes) (sdk : ConnectSdk W) (json : ItemCodec)
    (k : OpConnectKeyring W) where
  abbrev shown : Bytes → List ConnectItem → List OpItem
  shown t items = under getenv sdk json k t items

  -- What stands in front does not depend on what is behind.
  hydrated-cons :
      (i : ConnectItem) (xs ys : List ConnectItem)
      → hydrated getenv sdk json k xs ≡ hydrated getenv sdk json k ys
      → hydrated getenv sdk json k (i ∷ xs) ≡ hydrated getenv sdk json k (i ∷ ys)
  hydrated-cons i xs ys h = elim (Counts-cases getenv sdk json k i) [
    | counts g id one adds ↦ rw (adds xs, adds ys, h) refl
    | passed skips ↦ rw (skips xs, skips ys) h
  ]

  hydrated-append :
      (xs ys : List ConnectItem)
      → hydrated getenv sdk json k (xs ++ ys)
        ≡ hydrated getenv sdk json k xs ++ hydrated getenv sdk json k ys
  hydrated-append [] ys = rw hydrated-nil refl
  hydrated-append (i ∷ xs) ys = elim (Counts-cases getenv sdk json k i) [
    | counts g id one adds ↦ rw (adds (xs ++ ys), adds xs, hydrated-append xs ys) refl
    | passed skips ↦ rw (skips (xs ++ ys), skips xs) (hydrated-append xs ys)
  ]

  titled-append :
      (t : Bytes) (xs ys : List ConnectItem) → titled t (xs ++ ys) ≡ titled t xs ++ titled t ys
  unfolding titled
  titled-append t [] ys = refl
  titled-append t (i ∷ xs) ys = ground (arith, titled-append t xs ys)

  pub under-append :
      (t : Bytes) (xs ys : List ConnectItem) → shown t (xs ++ ys) ≡ shown t xs ++ shown t ys
  under-append t xs ys =
      ap (hydrated getenv sdk json k) (titled-append t xs ys)
      ∙ hydrated-append (titled t xs) (titled t ys)

  -- Under its title, the item that is replaced gives way to the other.
  pub under-replaced :
      (t : Bytes) (n : ConnectItem) (items : List ConnectItem) (h : OpItem)
      → AreDistinct items
      → shown t items ≡ h ∷ []
      → n.id ≡ h.id
      → (n.title == t) ≡ true
      → shown t (replaced n items) ≡ hydrated getenv sdk json k (n ∷ [])
  unfolding titled replaced
  under-replaced t n [] h d e named same = absurd (ground (arith, hydrated-nil getenv sdk json k))
  under-replaced t n (i ∷ items) h (new, d) e named same = elim (Bool-cases (i.title == t)) [
    | inl here ↦ elim (Counts-cases getenv sdk json k i) [
      | counts g id one adds ↦
          let e' : g ∷ shown t items ≡ h ∷ [] = sym (adds (titled t items)) ∙ (rw here at e) in
          let gone : shown t items ≡ [] = ground arith in
          let hit : (i.id == n.id) ≡ true = ground (arith, e', id) in
          let still = replaced_absent n items (ground (arith, new, hit)) in
          rw (hit, same, still)
            (hydrated-cons n (titled t items) [] (gone ∙ sym (hydrated-nil getenv sdk json k)))
      | passed skips ↦
          let e' : shown t items ≡ h ∷ [] = sym (skips (titled t items)) ∙ (rw here at e) in
          let there = contains-ids-under getenv sdk json k t items h e' in
          let miss : (i.id == n.id) ≡ false = ground (arith, new, there) in
          rw (miss, here, skips (titled t (replaced n items)))
            (under-replaced t n items h d e' named same)
    ]
    | inr there ↦
        let e' : shown t items ≡ h ∷ [] = rw there at e in
        let inside = contains-ids-under getenv sdk json k t items h e' in
        let miss : (i.id == n.id) ≡ false = ground (arith, new, inside) in
        rw (miss, there) (under-replaced t n items h d e' named same)
  ]

  -- Under other titles there is no change.
  pub under-replaced_other :
      (t : Bytes) (n j : ConnectItem) (items : List ConnectItem)
      → AreDistinct items
      → find n.id items ≡ some j
      → (j.title == t) ≡ false
      → (n.title == t) ≡ false
      → shown t (replaced n items) ≡ shown t items
  unfolding titled replaced find
  under-replaced_other t n j [] d found old same = refl
  under-replaced_other t n j (i ∷ items) (new, d) found old same =
      elim (Bool-cases (i.id == n.id)) [
        | inl hit ↦
            let still = replaced_absent n items (ground (arith, new, hit)) in
            let outside : (i.title == t) ≡ false = ground (arith, found, hit) in
            rw (hit, same, outside, still) refl
        | inr miss ↦
            let rest = under-replaced_other t n j items d (rw miss at found) old same in
            elim (Bool-cases (i.title == t)) [
              | inl here ↦
                  rw (miss, here)
                    (hydrated-cons i (titled t (replaced n items)) (titled t items) rest)
              | inr there ↦ rw (miss, there) rest
            ]
      ]
