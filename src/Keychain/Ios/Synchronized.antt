-- ===== src/Keychain/Ios/Synchronized.antt =====
-- Items that keychain_ios.go asks the keychain to synchronize.
use keyring.Prelude.{
  ◌≡◌, refl, ap, ◌∙◌, Bytes, Bool, true, false, not, ◌&&◌, Option, Option-cases, inl, inr, none,
  List, contains, list_eq, nat_eq, is_empty,
}
use keyring.Errors.{sentinel, err_key_not_found}
use keyring.Exec.{Result, ok, err, is_ok}
use keyring.Api.{Item}
use keyring.Keychain.Library.{QueryResult, Library}
use keyring.Keychain.{accounts_of}
use keyring.Keychain.Assumed.{IsKeychain, IsSynchronizing}
use keyring.Keychain.Ios.{
  IosKeychain, get, set, remove, keys, to_update, update_item, item_attributes, unless_duplicate,
}
use keyring.Keychain.Ios.Laws.{get_run, remove_run, keys_run}

module _ {W : Type 0} (library : Library W) (k : IosKeychain W)
    (content : W → Bytes → Option QueryResult) (synced : W → Bytes → Bool)
    (keychain : (w : W) → IsKeychain library k.service content w)
    (cloud : (w : W) → IsSynchronizing library k.service content synced w) where
  set_first :
      (i : Item) (w : W)
      → is_empty i.key ≡ false
      → (k.is_synchronizable && not i.keychain_not_synchronizable) ≡ true
      → synced w i.key ≡ false
      → set library k i w ≡ (ok tt, (cloud w).joined (item_attributes library k i))
  unfolding set unless_duplicate item_attributes
  set_first i w full asked new =
      rw
        ((cloud w).join_result i.key (item_attributes library k i) full refl refl (rw asked refl)
          new)
        refl

  -- The update that `Set` turns to finds no item.
  set_again :
      (i : Item) (w : W)
      → is_empty i.key ≡ false
      → (k.is_synchronizable && not i.keychain_not_synchronizable) ≡ true
      → content w i.key ≡ none
      → synced w i.key ≡ true
      → is_ok (set library k i w).0 ≡ false
  unfolding set unless_duplicate item_attributes update_item to_update
  set_again i w full asked apart there = elim (Option-cases (keychain w).missing) [
    | inl e ↦
        rw
          (
            (cloud w).join_taken i.key (item_attributes library k i) full refl refl (rw asked refl)
                there,
            (cloud w).is_taken,
            (keychain w).describe_result i.key full,
            apart,
            e,
          )
          refl
    | inr (f, e) ↦
        rw
          (
            (cloud w).join_taken i.key (item_attributes library k i) full refl refl (rw asked refl)
                there,
            (cloud w).is_taken,
            (keychain w).describe_result i.key full,
            apart,
            e,
          )
          refl
  ]

  -- Over a keychain that keeps items that are to be synchronized apart from the others, for an item
  -- with a key that is not empty, that is to be synchronized, and that is not there in either way:
  -- `Set` succeeds, but `Get` and `Remove` then say that there is no item, `Keys` does not list its
  -- key, and `Set` of the same item is an error.
  pub set_synchronized :
      (i : Item) (w : W)
      → is_empty i.key ≡ false
      → (k.is_synchronizable && not i.keychain_not_synchronizable) ≡ true
      → content w i.key ≡ none
      → synced w i.key ≡ false
      → let w₁ = (set library k i w).1 in
        ((set library k i w).0 ≡ ok tt)
        × ((get library k i.key w₁).0 ≡ err (sentinel err_key_not_found))
        × ((remove library k i.key w₁).0 ≡ err (sentinel err_key_not_found))
        × ((ks : List Bytes) × ((keys library k w₁).0 ≡ ok ks) × (contains ks i.key ≡ false))
        × (is_ok (set library k i w₁).0 ≡ false)
  unfolding item_attributes
  set_synchronized i w full asked apart new =
      let a = item_attributes library k i in
      let w₁ = (cloud w).joined a in
      let absent : content w₁ i.key ≡ none = (cloud w).join_content a i.key ∙ apart in
      rw (set_first i w full asked new) (
        refl,
        ap (λ (x : Result Item × W). x.0) (get_run library k content keychain i.key w₁ full)
            ∙ rw absent refl,
        (remove_run library k content keychain i.key w₁ full).0 ∙ rw absent refl,
        (
          accounts_of (keychain w₁).entries,
          ap (λ (x : Result (List Bytes) × W). x.0) (keys_run library k content keychain w₁),
          (keychain w₁).list_complete i.key full ∙ rw absent refl,
        ),
        set_again i w₁ full asked absent ((cloud w).join_synced i.key a refl),
      )
