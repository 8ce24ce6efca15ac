-- ===== src/SecretService/Unlocking.antt =====
-- How secretservice.go opens the collection of the keyring and unlocks what it needs.
use keyring.Prelude.{
  ◌≡◌, refl, Bytes, Bool, false, Option, some, list_eq, nat_eq, inl, inr, Bool-cases,
}
use keyring.Exec.{Result, ok}
use keyring.Exec.Object.{Object}
use keyring.Api.{ItemCodec}
use keyring.SecretService.Service.{Service as LibSecret}
use keyring.SecretService.{
  SecretsKeyring, keep_collection, open_secrets, collection_of, open_collection, unlock_item,
  ensure_collection_unlocked,
}
use keyring.SecretService.Assumed.{IsService}

module _ {W : Type 0} {service : LibSecret W} {name c : Bytes} {content : W → Bytes → Option Bytes}
    {Holds : W → Bytes → Bytes → Bytes → Type 0} {is_locked : W → Bytes → Bool} (json : ItemCodec)
    (is_service : (w : W) → IsService service name c content Holds is_locked w) where
  abbrev pub State : Type 0
  State = Object SecretsKeyring W

  abbrev pub after_open : State → State
  after_open o = record {
    fields = record { collection = some c; session = (is_service o.world).session };
    world = (is_service o.world).opened;
  }

  pub open_secrets_run : (o : State) → open_secrets service json name o ≡ (ok tt, after_open o)
  unfolding open_secrets keep_collection
  open_secrets_run o =
      let s = is_service o.world in
      let t = is_service s.opened in
      rw (s.open_result) (rw (t.collections_result) (rw (t.collection_listed) refl))

  pub open_collection_run : (o : State) → open_collection service json name o ≡ (ok c, after_open o)
  unfolding open_collection collection_of
  open_collection_run o = rw (open_secrets_run o) refl

  -- A thing unlocked, with all else as it was.
  pub record Unlocked (p : Bytes) (run : State → Result (Unit {0}) × State) (o : State)
      : Type 0 where
    pub v : W
    pub run_is : run o ≡ (ok tt, record o { world = v })
    pub open_v : is_locked v p ≡ false
    pub same : (j : Bytes) → content v j ≡ content o.world j
    pub holds : (i key b : Bytes) → Holds o.world i key b → Holds v i key b

  pub unlock_item-Unlocked :
      (i key b : Bytes) (o : State)
      → Holds o.world i key b
      → Unlocked i (unlock_item service json name i) o
  unfolding unlock_item
  unlock_item-Unlocked i key b o h = elim (Bool-cases (is_locked o.world i)) [
    | inl e ↦ record {
      v = (is_service o.world).unlocked i;
      run_is =
          rw ((is_service o.world).locked_result i key b h, e)
            (rw ((is_service o.world).unlock_result i) refl);
      open_v = (is_service o.world).unlock_locked i;
      same = (is_service o.world).unlock_content i;
      holds = (is_service o.world).unlock_holds i;
    }
    | inr e ↦ record {
      v = o.world;
      run_is = rw ((is_service o.world).locked_result i key b h, e) refl;
      open_v = e;
      same = λ j. refl;
      holds = λ i key b h. h;
    }
  ]

  pub ensure_collection_unlocked-Unlocked :
      (o : State) → Unlocked c (ensure_collection_unlocked service json name c) o
  unfolding ensure_collection_unlocked
  ensure_collection_unlocked-Unlocked o = elim (Bool-cases (is_locked o.world c)) [
    | inl e ↦ record {
      v = (is_service o.world).unlocked c;
      run_is =
          rw ((is_service o.world).collection_locked_result, e)
            (rw ((is_service o.world).unlock_result c) refl);
      open_v = (is_service o.world).unlock_locked c;
      same = (is_service o.world).unlock_content c;
      holds = (is_service o.world).unlock_holds c;
    }
    | inr e ↦ record {
      v = o.world;
      run_is = rw ((is_service o.world).collection_locked_result, e) refl;
      open_v = e;
      same = λ j. refl;
      holds = λ i key b h. h;
    }
  ]
