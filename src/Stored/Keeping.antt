-- ===== src/Stored/Keeping.antt =====
-- A backend that keeps each item as a text, against the contract of a keyring.
use keyring.Prelude.{
  ◌≡◌, refl, Bytes, Bool, true, false, Option, none, some, List, contains, ◌==◌, list_eq, nat_eq,
  is_some, if◌then◌else◌, ◌∙◌, ap, sym, subst,
}
use keyring.Exec.{Result, ok, found}
use keyring.Api.{Item, ItemCodec, Keyring}
use keyring.Contract.{MeetsContract}
use keyring.Stored.{WritesItems, decoded, Parses}

module _ (json : ItemCodec) where
  Parses-if :
      (b : Bool) (x y : Option Bytes)
      → Parses json x
      → Parses json y
      → Parses json (if b then x else y)
  Parses-if true x y hx hy = hx
  Parses-if false x y hx hy = hy

  decoded-if :
      (b : Bool) (x y : Option Bytes)
      → decoded json (if b then x else y) ≡ (if b then decoded json x else decoded json y)
  decoded-if true x y = refl
  decoded-if false x y = refl

  is_some-decoded : (b : Option Bytes) → Parses json b → is_some (decoded json b) ≡ is_some b
  is_some-decoded none h = refl
  is_some-decoded (some b) (full, i, reads) = rw reads refl

module _ {W : Type 0} (content : W → Bytes → Option Bytes) where
  -- The result of a run, and the texts that it leaves.
  abbrev pub Leaves : {A : Type 0} → Result A × W → Result A → (Bytes → Option Bytes) → Type 0
  Leaves run r texts = (run.0 ≡ r) × ((j : Bytes) → content run.1 j ≡ texts j)

  -- What the operations do from the state `w` to the texts, each under its key.
  pub record KeepsTexts (ring : Keyring W) (json : ItemCodec) (text : Item → Bytes)
      (absent : Result (Unit {0})) (w : W) : Type 0 where
    pub get_leaves :
        (key : Bytes) → Leaves (ring.get key w) (found (decoded json (content w key))) (content w)
    pub set_leaves :
        (i : Item)
        → Leaves (ring.set i w) (ok tt) (λ j. if i.key == j then some (text i) else content w j)
    pub remove_leaves :
        (key : Bytes)
        → Leaves
            (ring.remove key w)
            (if is_some (content w key) then ok tt else absent)
            (λ j. if key == j then none else content w j)
    pub names : List Bytes
    pub names_complete : (j : Bytes) → contains names j ≡ is_some (content w j)
    pub keys_leaves : Leaves (ring.keys w) (ok names) (content w)

  -- Each text is that of an item.
  abbrev pub AllParse : ItemCodec → W → Type 0
  AllParse json w = (key : Bytes) → Parses json (content w key)

  -- So the operations keep the contract on the items, and the texts stay those of items.
  pub KeepsTexts-MeetsContract :
      (ring : Keyring W) (json : ItemCodec) (text : Item → Bytes) (kept : Item → Item)
      (absent : Result (Unit {0})) (w : W)
      → WritesItems json text kept
      → AllParse json w
      → KeepsTexts ring json text absent w
      → MeetsContract ring
          (AllParse json)
          (λ v key. decoded json (content v key))
          kept
          (λ i. none)
          absent
          w
  KeepsTexts-MeetsContract ring json text kept absent w writes good does =
      let moved : (t : Option Bytes) (u : Option Bytes) → t ≡ u → Parses json u → Parses json t =
        λ t u e h. subst (Parses json) (sym e) h in
      record {
        get_result = λ key. (does.get_leaves key).0;
        get_good = λ key j. moved _ _ ((does.get_leaves key).1 j) (good j);
        get_view = λ key j. ap (decoded json) ((does.get_leaves key).1 j);
        set_result = λ i. (does.set_leaves i).0;
        set_good = λ i j. moved _ _ ((does.set_leaves i).1 j) (
            Parses-if json (i.key == j) (some (text i)) (content w j)
              (writes.text_full i, kept i, writes.decode_text i) (good j));
        set_view = λ i j.
            ap (decoded json) ((does.set_leaves i).1 j)
            ∙ decoded-if json (i.key == j) (some (text i)) (content w j)
            ∙ rw (writes.decode_text i) refl;
        remove_result = λ key.
            (does.remove_leaves key).0 ∙ rw (is_some-decoded json (content w key) (good key)) refl;
        remove_good = λ key j.
            moved _ _ ((does.remove_leaves key).1 j)
              (Parses-if json (key == j) none (content w j) tt (good j));
        remove_view = λ key j.
            ap (decoded json) ((does.remove_leaves key).1 j)
            ∙ decoded-if json (key == j) none (content w j);
        keys_list = does.names;
        keys_result = does.keys_leaves.0;
        keys_complete =
            λ j. does.names_complete j ∙ sym (is_some-decoded json (content w j) (good j));
        keys_sound = λ j h. h;
        keys_good = λ j. moved _ _ (does.keys_leaves.1 j) (good j);
        keys_view = λ j. ap (decoded json) (does.keys_leaves.1 j);
      }

  -- Success in both cases is success.
  pub always :
      (run : Result (Unit {0}) × W) {texts : Bytes → Option Bytes} (b : Bool)
      → Leaves run (ok tt) texts
      → Leaves run (if b then ok tt else ok tt) texts
  always run true h = h
  always run false h = h
