-- ===== src/Contract.antt =====
-- What the `Keyring` interface (keyring.go) promises its callers, for a backend whose content in
-- each state is a view from keys to items.
use keyring.Prelude.{
  ◌≡◌, Option, none, some, List, contains, Bytes, list_eq, nat_eq, ◌==◌, is_some, if◌then◌else◌,
  not, ◌&&◌, Bool, true,
}
use keyring.Errors.{Error}
use keyring.Exec.{Result, ok, err, found}
use keyring.Api.{Item, Keyring}

abbrev pub accepted : Option Error → Result (Unit {0})
accepted none = ok tt
accepted (some e) = err e

-- `same` tells which keys the backend takes for one, and `listed` which ones `Keys` lists. `kept` is
-- what it keeps of an item and returns under a key, `refused` the error with which it turns an item
-- down, and `absent` what `Remove` returns where there is nothing under the key. `Good` is the
-- backend's invariant.
pub record MeetsContractUpTo {W : Type 0} (same : Bytes → Bytes → Bool) (listed : W → Bytes → Bool)
    (ring : Keyring W) (Good : W → Type 0) (view : W → Bytes → Option Item)
    (kept : Bytes → Item → Item) (refused : Item → Option Error) (absent : Result Unit) (w : W)
    : Type 0 where
  pub get_result : (key : Bytes) → (ring.get key w).0 ≡ found (view w key)
  pub get_good : (key : Bytes) → Good (ring.get key w).1
  pub get_view : (key j : Bytes) → view (ring.get key w).1 j ≡ view w j
  pub set_result : (i : Item) → (ring.set i w).0 ≡ accepted (refused i)
  pub set_good : (i : Item) → Good (ring.set i w).1
  pub set_view :
      (i : Item) (j : Bytes)
      → view (ring.set i w).1 j
        ≡ (if not (is_some (refused i)) && same i.key j then some (kept j i) else view w j)
  pub remove_result :
      (key : Bytes) → (ring.remove key w).0 ≡ (if is_some (view w key) then ok tt else absent)
  pub remove_good : (key : Bytes) → Good (ring.remove key w).1
  pub remove_view :
      (key j : Bytes) → view (ring.remove key w).1 j ≡ (if same key j then none else view w j)
  pub keys_list : List Bytes
  pub keys_result : (ring.keys w).0 ≡ ok keys_list
  pub keys_complete : (j : Bytes) → contains keys_list j ≡ listed w j
  pub keys_sound : (j : Bytes) → listed w j ≡ true → is_some (view w j) ≡ true
  pub keys_good : Good (ring.keys w).1
  pub keys_view : (j : Bytes) → view (ring.keys w).1 j ≡ view w j

-- Keys are compared byte by byte, and `Keys` lists those that have an item.
abbrev pub MeetsContract :
    {W : Type 0}
    → Keyring W
    → (W → Type 0)
    → (W → Bytes → Option Item)
    → (Item → Item)
    → (Item → Option Error)
    → Result (Unit {0})
    → W
    → Type 0
MeetsContract ring Good view kept refused absent w =
    MeetsContractUpTo (λ key j. key == j) (λ v j. is_some (view v j)) ring Good view (λ j i. kept i)
      refused absent w
