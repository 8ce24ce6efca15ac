-- ===== src/OnePassword/Connect/SetGet.antt =====
-- `Set`, `Remove` and `Get` of the 1Password Connect backend (opconnect.go).
use keyring.Prelude.{
  ◌≡◌, refl, ap, sym, ◌∙◌, subst, Bytes, false, List, [], ◌∷◌, append-nil, arith, ==_refl, inl, inr,
  ◌==◌, list_eq, nat_eq, ◌⊎◌,
}
use keyring.Errors.{is}
use keyring.Exec.{Result, ok}
use keyring.Api.{Item, ItemCodec}
use keyring.WinHello.Window.{Ask}
use keyring.OnePassword.Sdk.{OpItem}
use keyring.OnePassword.Base.{title_from_key, key_from_title}
use keyring.OnePassword.Titles.{key_from_title-title_from_key}
use keyring.OnePassword.Items.{single, first_value}
use keyring.OnePassword.Connect.Sdk.{ConnectField, ConnectItem, ConnectClient, ConnectSdk}
use keyring.OnePassword.Connect.{
  OpConnectKeyring, op_item, get, set, initialize_op_connect_client, connect_item, create, update,
  first_id,
}
use keyring.OnePassword.Connect.Server.{titled, find, AreDistinct, replaced, numbered, IsServer}
use keyring.OnePassword.Connect.Vault.{
  hydrated-nil, only_field_under, found_under, hydrated-connect_item,
}
use keyring.OnePassword.Connect.Changes.{
  AreDistinct-append, AreDistinct-replaced, under-append, under-replaced, under-replaced_other,
}
use keyring.OnePassword.Connect.Fetching.{Reads, items_of, read_item, op_item_run, get_run}

module _ {W : Type 0} (getenv : Bytes → Ask W Bytes) (sdk : ConnectSdk W) (json : ItemCodec)
    (k : OpConnectKeyring W) (client : ConnectClient W) (vault : W → List ConnectItem)
    (server : (w : W) → IsServer client k.base.vault_id vault w)
    (made : (w : W)
      → Reads getenv sdk json k client vault server
          (initialize_op_connect_client getenv sdk json k w)
          (ok client)
          w)
    (clock : (w : W) → vault (sdk.now w).1 ≡ vault w) where
  abbrev found_for : Bytes → List ConnectItem → List OpItem
  found_for = items_of getenv sdk json k client vault server

  -- How a `Set` ends: the items under the titles of the keys.
  record Writes (key value : Bytes) (run : Result (Unit {0}) × W) (w : W) : Type 0 where
    result : run.0 ≡ ok tt
    distinct : AreDistinct (vault run.1)
    there :
        (h : OpItem) × (found_for key (vault run.1) ≡ h ∷ []) × (first_value h.fields ≡ ok value)
    others :
        (j : Bytes)
        → (title_from_key k.base key == title_from_key k.base j) ≡ false
        → found_for j (vault run.1) ≡ found_for j (vault w)

  create_run :
      (key value : Bytes) (w : W)
      → AreDistinct (vault w)
      → found_for key (vault w) ≡ []
      → Writes key value (create getenv sdk json k client (title_from_key k.base key) value w) w
  unfolding create connect_item titled
  create_run key value w d empty =
      let t = title_from_key k.base key in
      let i = connect_item getenv sdk json k [] [] t value 0 in
      let n = numbered ((server w).new_id i) (server w).new_field_id i in
      let grown = (server w).create_vault i in
      let f : ConnectField = record {
        id = [];
        field_type = sdk.field_type_concealed;
        label = k.base.item_field_title;
        value = value;
      } in
      let (h, counted, reads) =
        hydrated-connect_item getenv sdk json k n.id ((server w).new_field_id f) t value 0 in
      let added = λ (u : Bytes). under-append getenv sdk json k u (vault w) (n ∷ []) in
      record {
        result = ground (arith, (server w).create_result i);
        distinct =
            subst AreDistinct (sym grown) (AreDistinct-append (vault w) n ((server w).is_new i) d);
        there = (h, ap (found_for key) grown ∙ added t ∙ rw (empty, ==_refl t) counted, reads);
        others = λ j other.
            ap (found_for j) grown
            ∙ added (title_from_key k.base j)
            ∙ rw (other, hydrated-nil getenv sdk json k) (append-nil _);
      }

  update_run :
      (key value : Bytes) (w : W) (h : OpItem)
      → AreDistinct (vault w)
      → found_for key (vault w) ≡ h ∷ []
      → Writes key value (update getenv sdk json k client h (title_from_key k.base key) value w) w
  unfolding update first_id connect_item titled
  update_run key value w h d e =
      let t = title_from_key k.base key in
      let (f, one) = only_field_under getenv sdk json k t (vault w) h e in
      let (now, w₁) = sdk.now w in
      let n = connect_item getenv sdk json k h.id f.id t value now in
      let (j, there, same) = found_under getenv sdk json k t (vault w) h d e in
      let still = ap (find h.id) (clock w) ∙ there in
      let changed = (server w₁).update_vault n j still ∙ ap (replaced n) (clock w) in
      let (g, counted, reads) = hydrated-connect_item getenv sdk json k h.id f.id t value now in
      let left : vault (update getenv sdk json k client h t value w).1 ≡ replaced n (vault w) =
        ground (arith, one, changed) in
      record {
        result = ground (arith, one, (server w₁).update_result n j still);
        distinct = subst AreDistinct (sym left) (AreDistinct-replaced n (vault w) d);
        there = (
          g,
          ap (found_for key) left
              ∙ under-replaced getenv sdk json k t n (vault w) h d e refl (==_refl t)
              ∙ counted,
          reads,
        );
        others = λ u other.
            ap (found_for u) left
            ∙ under-replaced_other getenv sdk json k (title_from_key k.base u) n j (vault w) d there
                (ground (arith, same, other)) other;
      }

  Writes-moved :
      (key value : Bytes) (run run' : Result (Unit {0}) × W) (w v : W)
      → run ≡ run'
      → vault v ≡ vault w
      → Writes key value run' v
      → Writes key value run w
  Writes-moved key value run run' w v e same x =
      subst (λ (r : Result (Unit {0}) × W). Writes key value r w) (sym e)
        (record {
          result = x.result;
          distinct = x.distinct;
          there = x.there;
          others = λ j other. x.others j other ∙ ap (found_for j) same;
        })

  set_run :
      (i : Item) (w : W) (text : Bytes)
      → AreDistinct (vault w)
      → (found_for i.key (vault w) ≡ []) ⊎ ((h : OpItem) × (found_for i.key (vault w) ≡ h ∷ []))
      → json.encode i ≡ ok text
      → Writes i.key text (set getenv sdk json k i w) w
  unfolding set single is
  set_run i w text d before writes =
      let t = title_from_key k.base i.key in
      let w₁ = (initialize_op_connect_client getenv sdk json k w).1 in
      let same₁ = (made w).1 in
      let d₁ = subst AreDistinct (sym same₁) d in
      let found = op_item_run getenv sdk json k client vault server i.key w₁ d₁ in
      let w₂ = (op_item getenv sdk json k client i.key w₁).1 in
      let same₂ = found.1 ∙ same₁ in
      let d₂ = subst AreDistinct (sym same₂) d in
      let at = ap (found_for i.key) same₁ in
      elim before [
        | inl empty ↦
            let run : set getenv sdk json k i w ≡ create getenv sdk json k client t text w₂ =
              ground (arith, (made w).0, found.0, at, empty, writes) in
            Writes-moved i.key text _ _ w w₂ run same₂
              (create_run i.key text w₂ d₂ (ap (found_for i.key) same₂ ∙ empty))
        | inr (h, one) ↦
            let run : set getenv sdk json k i w ≡ update getenv sdk json k client h t text w₂ =
              ground (arith, (made w).0, found.0, at, one, writes) in
            Writes-moved i.key text _ _ w w₂ run same₂
              (update_run i.key text w₂ h d₂ (ap (found_for i.key) same₂ ∙ one))
      ]

  title_apart :
      (i j : Bytes)
      → (i == j) ≡ false
      → (title_from_key k.base i == title_from_key k.base j) ≡ false
  title_apart i j h =
      let back : title_from_key k.base i ≡ title_from_key k.base j → i ≡ j = λ e.
        sym (key_from_title-title_from_key k.base i)
        ∙ ap (key_from_title k.base) e
        ∙ key_from_title-title_from_key k.base j in
      ground (arith, h, back)

  -- Over a 1Password Connect server whose items each have an ID of their own, and where a client
  -- can be made, a `Set` under a title that at most one of the keyring's items has succeeds, and
  -- creates the item or updates the one that is there: `Get` then returns what JSON keeps of the
  -- item, and returns of every other key what it returned before; the IDs stay apart.
  pub connect_get-set :
      (i kept : Item) (w : W) (text : Bytes)
      → AreDistinct (vault w)
      → (found_for i.key (vault w) ≡ []) ⊎ ((h : OpItem) × (found_for i.key (vault w) ≡ h ∷ []))
      → json.encode i ≡ ok text
      → json.decode text ≡ ok kept
      → let w' = (set getenv sdk json k i w).1 in
        ((set getenv sdk json k i w).0 ≡ ok tt)
        × ((get getenv sdk json k i.key w').0 ≡ ok kept)
        × ((j : Bytes)
            → (i.key == j) ≡ false
            → (get getenv sdk json k j w').0 ≡ (get getenv sdk json k j w).0)
        × AreDistinct (vault w')
  unfolding single
  connect_get-set i kept w text d before writes reads =
      let x = set_run i w text d before writes in
      let w' = (set getenv sdk json k i w).1 in
      let (h, there, value) = x.there in
      let reading = λ (j : Bytes). get_run getenv sdk json k client vault server made j in
      (
        x.result,
        (reading i.key w' x.distinct).0 ∙ ground (arith, there, value, reads),
        λ j other.
            (reading j w' x.distinct).0
            ∙ ap (read_item getenv sdk json k client vault server)
                (x.others j (title_apart i.key j other))
            ∙ sym (reading j w d).0,
        x.distinct,
      )
