-- ===== src/OnePassword/Standard/Listing.antt =====
-- `Keys` of the 1Password backends (opstandard.go) and repeated titles.
use keyring.Prelude.{
  ◌+◌, ◌≤◌, ◌≡◌, refl, sym, ap, ◌∙◌, append-nil, append_assoc, ◌↔◌, Bytes, true, false, List, [],
  ◌∷◌, ◌++◌, length, length-append, contains, contains-append, arith, Bool-cases, inl, inr, list_eq,
  nat_eq,
}
use keyring.Exec.{Result, ok}
use keyring.Api.{ItemCodec}
use keyring.OnePassword.Sdk.{OpItem, Client}
use keyring.OnePassword.Base.{OpBaseKeyring, key_from_title}
use keyring.OnePassword.Items.{distinct_titles, keys_of_titles, keys_of_items}
use keyring.OnePassword.Standard.{with_title, op_items, keys}

module _ {W : Type 0} (client : Client W) (json : ItemCodec) (k : OpBaseKeyring W) where
  abbrev titles : List Bytes → List OpItem → List Bytes
  titles = distinct_titles

  abbrev named : Bytes → List OpItem → List OpItem
  named = with_title client json k

  distinct_titles_bound :
      (items : List OpItem) (seen : List Bytes)
      → length (titles seen items) ≤ length seen + length items
  unfolding distinct_titles
  distinct_titles_bound [] seen = omega arith
  distinct_titles_bound (i ∷ items) seen = elim (Bool-cases (contains seen i.title)) [
    | inl e ↦ rw e (omega (arith, distinct_titles_bound items seen))
    | inr e ↦ rw e (
        omega (
          arith,
          distinct_titles_bound items (seen ++ i.title ∷ []),
          length-append seen (i.title ∷ []),
        ))
  ]

  -- No title was seen, and none is there twice.
  record IsFresh (seen : List Bytes) (items : List OpItem) : Type 0 where
    unseen : (t : Bytes) → contains seen t ≡ true → length (named t items) ≡ 0
    once : (t : Bytes) → length (named t items) ≤ 1

  IsFresh-tail :
      (seen : List Bytes) (i : OpItem) (items : List OpItem)
      → IsFresh seen (i ∷ items)
      → IsFresh (seen ++ i.title ∷ []) items
  unfolding with_title contains
  IsFresh-tail seen i items f = record {
    unseen = λ t h. ground (arith, f.unseen t, f.once t, contains-append seen (i.title ∷ []) t);
    once = λ t. ground (arith, f.once t);
  }

  IsFresh-cons :
      (seen : List Bytes) (i : OpItem) (items : List OpItem)
      → contains seen i.title ≡ false
      → IsFresh (seen ++ i.title ∷ []) items
      → IsFresh seen (i ∷ items)
  unfolding with_title contains
  IsFresh-cons seen i items new f = record {
    unseen = λ t h. ground (arith, f.unseen t, contains-append seen (i.title ∷ []) t);
    once = λ t. ground (arith, f.unseen t, f.once t, contains-append seen (i.title ∷ []) t);
  }

  IsFresh-head :
      (seen : List Bytes) (i : OpItem) (items : List OpItem)
      → IsFresh seen (i ∷ items)
      → contains seen i.title ≡ false
  unfolding with_title
  IsFresh-head seen i items f = ground (arith, f.unseen i.title)

  all_distinct :
      (items : List OpItem) (seen : List Bytes)
      → length (titles seen items) ≡ length seen + length items
      → IsFresh seen items
  unfolding distinct_titles with_title
  all_distinct [] seen h = record { unseen = λ t e. refl; once = λ t. omega arith }
  all_distinct (i ∷ items) seen h = elim (Bool-cases (contains seen i.title)) [
    | inl e ↦ absurd (ground (arith, distinct_titles_bound items seen))
    | inr e ↦ IsFresh-cons seen i items e (
        all_distinct items (seen ++ i.title ∷ [])
          (ground (arith, length-append seen (i.title ∷ []))))
  ]

  length-distinct_titles :
      (items : List OpItem) (seen : List Bytes)
      → IsFresh seen items
      → length (titles seen items) ≡ length seen + length items
  unfolding distinct_titles
  length-distinct_titles [] seen f = omega arith
  length-distinct_titles (i ∷ items) seen f = rw (IsFresh-head seen i items f) (
      omega (
        arith,
        length-distinct_titles items (seen ++ i.title ∷ []) (IsFresh-tail seen i items f),
        length-append seen (i.title ∷ []),
      ))

  -- The keys of the titles of all items, in their order.
  abbrev pub listed_keys : List OpItem → List Bytes
  listed_keys [] = []
  listed_keys (i ∷ items) = key_from_title k i.title ∷ listed_keys items

  abbrev titles_of : List OpItem → List Bytes
  titles_of [] = []
  titles_of (i ∷ items) = i.title ∷ titles_of items

  distinct_titles_all :
      (items : List OpItem) (seen : List Bytes)
      → IsFresh seen items
      → titles seen items ≡ seen ++ titles_of items
  unfolding distinct_titles
  distinct_titles_all [] seen f = sym (append-nil seen)
  distinct_titles_all (i ∷ items) seen f = rw (IsFresh-head seen i items f) (
      distinct_titles_all items (seen ++ i.title ∷ []) (IsFresh-tail seen i items f)
      ∙ append_assoc seen (i.title ∷ []) (titles_of items))

  keys_of_titles_all :
      (items : List OpItem) → keys_of_titles k (titles_of items) ≡ listed_keys items
  unfolding keys_of_titles
  keys_of_titles_all [] = refl
  keys_of_titles_all (i ∷ items) =
      ap (λ (l : List Bytes). key_from_title k i.title ∷ l) (keys_of_titles_all items)

  listed :
      (items : List OpItem)
      → ((t : Bytes) → length (named t items) ≤ 1)
      → keys_of_items k items ≡ ok (listed_keys items)
  unfolding keys_of_items contains
  listed items once =
      let f : IsFresh [] items = record { unseen = λ t h. cc; once = once } in
      let same = length-distinct_titles items [] f in
      ground (arith, distinct_titles_all items [] f, keys_of_titles_all items)

  -- With the keys that it lists, whichever they are, it found every title once.
  distinct_of_ok :
      (items : List OpItem) (ks : List Bytes)
      → keys_of_items k items ≡ ok ks
      → length (titles [] items) ≡ length items
  unfolding keys_of_items
  distinct_of_ok items ks e = ground arith

  -- Where the items of the vault can be read, `Keys` succeeds exactly if no two of them have one
  -- title, and then it lists the keys of the titles of all of them, in their order.
  pub keys_iff :
      (w w' : W) (items : List OpItem)
      → op_items client json k w ≡ (ok items, w')
      → (((ks : List Bytes) × ((keys client json k w).0 ≡ ok ks))
          ↔ ((t : Bytes) → length (with_title client json k t items) ≤ 1))
        × (((t : Bytes) → length (with_title client json k t items) ≤ 1)
            → keys client json k w ≡ (ok (listed_keys items), w'))
  unfolding keys
  keys_iff w w' items h =
      let lists : ((t : Bytes) → length (with_title client json k t items) ≤ 1)
          → keys client json k w ≡ (ok (listed_keys items), w') =
        λ once. ground (arith, h, listed items once) in
      (
        (
          λ (ks, e).
              (all_distinct items []
                (ground (arith, distinct_of_ok items ks (ground (arith, h, e))))).once,
          λ once. (listed_keys items, ap (λ (x : Result (List Bytes) × W). x.0) (lists once)),
        ),
        lists,
      )
