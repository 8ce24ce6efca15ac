-- ===== src/OnePassword/Connect/Fetching.antt =====
-- What the operations of opconnect.go find on a server that keeps its items.
use keyring.Prelude.{
  ◌≡◌, refl, ap, sym, subst, Bytes, true, false, some, List, [], ◌∷◌, map, contains, arith, ==_refl,
  Bool-cases, inl, inr, ◌==◌, list_eq, nat_eq,
}
use keyring.Exec.{Result, ok}
use keyring.Exec.Pure.{◌>>=◌}
use keyring.Api.{Item, ItemCodec}
use keyring.WinHello.Window.{Ask}
use keyring.OnePassword.Sdk.{OpItem}
use keyring.OnePassword.Base.{title_from_key}
use keyring.OnePassword.Items.{single, first_value}
use keyring.OnePassword.Connect.Sdk.{ConnectItem, ConnectClient, ConnectSdk}
use keyring.OnePassword.Connect.{
  OpConnectKeyring, prune_and_hydrate, op_item, get, initialize_op_connect_client, is_listed,
}
use keyring.OnePassword.Connect.Server.{overview, titled, find, ids, AreDistinct, IsServer}
use keyring.OnePassword.Connect.Vault.{hydrated, under}

-- Each of the items is found by its ID.
abbrev Fetched : List ConnectItem → List ConnectItem → Type 0
Fetched vault [] = Unit
Fetched vault (i ∷ items) = (find i.id vault ≡ some i) × Fetched vault items

contains-find :
    (id : Bytes) (items : List ConnectItem) (j : ConnectItem)
    → find id items ≡ some j
    → contains (ids items) id ≡ true
unfolding find ids contains
contains-find id [] j h = cc
contains-find id (i ∷ items) j h = ground (arith, contains-find id items j)

Fetched-cons :
    (i : ConnectItem) (vault items : List ConnectItem)
    → contains (ids vault) i.id ≡ false
    → Fetched vault items
    → Fetched (i ∷ vault) items
unfolding find
Fetched-cons i vault [] new f = tt
Fetched-cons i vault (j ∷ items) new (there, f) =
    (ground (arith, contains-find j.id vault j there), Fetched-cons i vault items new f)

Fetched-titled :
    (t : Bytes) (vault : List ConnectItem) → AreDistinct vault → Fetched vault (titled t vault)
unfolding titled find
Fetched-titled t [] d = tt
Fetched-titled t (i ∷ vault) (new, d) =
    let rest = Fetched-cons i vault (titled t vault) new (Fetched-titled t vault d) in
    elim (Bool-cases (i.title == t)) [
      | inl here ↦ rw here (rw (==_refl i.id) refl, rest)
      | inr there ↦ rw there rest
    ]

module _ {W : Type 0} (getenv : Bytes → Ask W Bytes) (sdk : ConnectSdk W) (json : ItemCodec)
    (k : OpConnectKeyring W) (client : ConnectClient W) (vault : W → List ConnectItem)
    (server : (w : W) → IsServer client k.base.vault_id vault w) where
  -- The result of a run that leaves the vault as it was.
  abbrev pub Reads : {A : Type 0} → Result A × W → Result A → W → Type 0
  Reads run r w = (run.0 ≡ r) × (vault run.1 ≡ vault w)

  prune_and_hydrate_run :
      (items : List ConnectItem) (w : W)
      → Fetched (vault w) items
      → Reads
          (prune_and_hydrate getenv sdk json k client (map overview items) w)
          (ok (hydrated getenv sdk json k items))
          w
  unfolding prune_and_hydrate hydrated
  prune_and_hydrate_run [] w f = (refl, refl)
  prune_and_hydrate_run (i ∷ items) w (there, f) =
      elim (Bool-cases (is_listed getenv sdk json k i)) [
        | inl listed ↦
            let w₁ = (client.get_item_by_uuid i.id k.base.vault_id w).1 in
            let got = (server w).by_id i.id i there in
            let kept = (server w).by_id_vault i.id in
            let rest =
              prune_and_hydrate_run items w₁
                (subst (λ (v : List ConnectItem). Fetched v items) (sym kept) f) in
            (ground (arith, listed, got, rest.0), ground (arith, listed, got, rest.0, rest.1, kept))
        | inr other ↦ rw other (prune_and_hydrate_run items w f)
      ]

  abbrev pub items_of : Bytes → List ConnectItem → List OpItem
  items_of key items = under getenv sdk json k (title_from_key k.base key) items

  pub op_item_run :
      (key : Bytes) (w : W)
      → AreDistinct (vault w)
      → Reads (op_item getenv sdk json k client key w) (single (items_of key (vault w))) w
  unfolding op_item
  op_item_run key w d =
      let t = title_from_key k.base key in
      let w₁ = (client.get_items_by_title t k.base.vault_id w).1 in
      let kept = (server w).by_title_vault t in
      let fetched = prune_and_hydrate_run (titled t (vault w)) w₁ (
        subst (λ (v : List ConnectItem). Fetched v (titled t (vault w))) (sym kept)
          (Fetched-titled t (vault w) d)) in
      (
        ground (arith, (server w).by_title t, fetched.0),
        ground (arith, (server w).by_title t, fetched.0, fetched.1, kept),
      )

  -- What `Get` makes of the items under a title.
  abbrev pub read_item : List OpItem → Result Item
  read_item items = do i ← single items; value ← first_value i.fields; json.decode value

  module _
      (made : (w : W)
        → Reads (initialize_op_connect_client getenv sdk json k w) (ok client) w) where
    pub get_run :
        (key : Bytes) (w : W)
        → AreDistinct (vault w)
        → Reads (get getenv sdk json k key w) (read_item (items_of key (vault w))) w
    unfolding get
    get_run key w d =
        let w₁ = (initialize_op_connect_client getenv sdk json k w).1 in
        let found = op_item_run key w₁ (subst AreDistinct (sym (made w).1) d) in
        let same = ap (items_of key) (made w).1 in
        (
          ground (arith, (made w).0, found.0, same),
          ground (arith, (made w).0, (made w).1, found.0, found.1, same),
        )
