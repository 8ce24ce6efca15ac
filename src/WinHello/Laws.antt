-- ===== src/WinHello/Laws.antt =====
-- `Set`, `Get`, `Remove` and `Keys` of the Windows Hello keyring (winhello.go), one after another.
use keyring.Prelude.{
  ◌≡◌, refl, sym, subst, ◌∙◌, ap, ◌⊎◌, inl, inr, Bytes, true, false, Option, none, some,
  Option-cases, List, contains, is_some, ==_refl, list_eq, nat_eq,
}
use keyring.Errors.{Error, wrapf, sentinel, err_key_not_found}
use keyring.Exec.{Result, ok, err, found}
use keyring.Api.{Item, plain_item}
use keyring.Credentials.{Credentials, IsManager}
use keyring.WinHello.Envelope.{EnvelopeCodec}
use keyring.WinHello.Crypto.{KeyWrapper, Cryptography, AadCodec}
use keyring.WinHello.Store.{store_credential_name}
use keyring.WinHello.Store.Laws.{same_key}
use keyring.WinHello.Backend.{Hooks, Backend, Session}
use keyring.WinHello.Working.{IsWorking, Opens}
use keyring.WinHello.Working.Runs.{text_at, shown, IsHeld, get_run, set_run, remove_run, keys_run}
use keyring.WinHello.{get, set, remove, keys}

module _ {W Block Gcm : Type 0} (c : Cryptography W Block Gcm) (json : EnvelopeCodec)
    (aad_json : AadCodec) (api : Credentials W) (hooks : Hooks W) (b : Backend)
    (blob : W → Bytes → Option Bytes) (refused : Bytes → Option Error) {fold : Bytes → Bytes}
    (manager : (w : W) → IsManager api fold blob refused w) (wrapper : KeyWrapper W)
    (unwrapped : Bytes → Result Bytes)
    (works : IsWorking c json aad_json hooks b blob wrapper unwrapped) where
  abbrev pub texts : Session W → Bytes → Option Bytes
  texts = text_at c json aad_json api hooks b blob refused manager wrapper unwrapped works

  abbrev item_in : Bytes → Option Bytes → Option Item
  item_in = shown c json aad_json api hooks b blob refused manager wrapper unwrapped works

  abbrev AreOpen : Bytes → Option Bytes → Type 0
  AreOpen = Opens c json aad_json b unwrapped

  abbrev Held : Session W → Type 0
  Held s = IsHeld c json aad_json api hooks b blob refused manager wrapper unwrapped works s.wrapper

  -- What `Get` makes of a text that opens, or of none.
  get_of :
      (key : Bytes) (o : Option Bytes) (s : Session W)
      → Held s
      → texts s key ≡ o
      → AreOpen key o
      → (get c json aad_json api hooks b key s).0 ≡ found (item_in key o)
  get_of key o s held there opens =
      (get_run c json aad_json api hooks b blob refused manager wrapper unwrapped works key s held
        (subst (AreOpen key) (sym there) opens)).result
      ∙ ap (λ (x : Option Bytes). found (item_in key x)) there

  -- Where the key, the cipher and JSON work, from a session with the key or with none: if the
  -- credential manager turns the envelope down, `Set` is an error and every envelope stays. If not,
  -- `Set` succeeds, `Get` returns the key and the data, `Remove` then succeeds, and once more is
  -- `ErrKeyNotFound`, as is `Get`; `Keys` lists no key without an envelope. Of another key, whose
  -- credential name differs in more than case and whose envelope opens if there is one, `Get`
  -- returns all the time what it returned before.
  pub winhello_get-set-remove :
      (i : Item) (j : Bytes) (s : Session W)
      → Held s
      → AreOpen j (texts s j)
      → same_key fold b.service_name i.key j ≡ false
      → let s₁ = (set c json aad_json api hooks b i s).1 in
        let s₂ = (remove c json aad_json api hooks b i.key s₁).1 in
        ((x : Bytes) × (e : Error) × (refused x ≡ some e)
          × ((set c json aad_json api hooks b i s).0 ≡ err (wrapf "write winhello item %q: %w" e))
          × ((l : Bytes) → texts s₁ l ≡ texts s l))
        ⊎ (((set c json aad_json api hooks b i s).0 ≡ ok tt)
            × ((get c json aad_json api hooks b i.key s₁).0 ≡ ok (plain_item i.key i.content))
            × ((get c json aad_json api hooks b j s₁).0 ≡ (get c json aad_json api hooks b j s).0)
            × ((remove c json aad_json api hooks b i.key s₁).0 ≡ ok tt)
            × ((get c json aad_json api hooks b i.key s₂).0 ≡ err (sentinel err_key_not_found))
            × ((get c json aad_json api hooks b j s₂).0 ≡ (get c json aad_json api hooks b j s).0)
            × ((remove c json aad_json api hooks b i.key s₂).0 ≡ err (sentinel err_key_not_found))
            × ((ks : List Bytes) × ((keys c json aad_json api hooks b s₁).0 ≡ ok ks)
                × ((l : Bytes) → contains ks l ≡ true → is_some (texts s₁ l) ≡ true)))
  winhello_get-set-remove i j s held opens other =
      let s₁ = (set c json aad_json api hooks b i s).1 in
      let s₂ = (remove c json aad_json api hooks b i.key s₁).1 in
      let drop = λ (v : Session W) (h : Held v).
        remove_run c json aad_json api hooks b blob refused manager wrapper unwrapped works i.key v
          h in
      let (x, holds, put) =
        set_run c json aad_json api hooks b blob refused manager wrapper unwrapped works i s held in
      let own : same_key fold b.service_name i.key i.key ≡ true =
        ==_refl (fold (store_credential_name b.service_name i.key)) in
      elim (Option-cases (refused x)) [
        | inr (e, turned_down) ↦ inl (
          x,
          e,
          turned_down,
          put.result ∙ rw turned_down refl,
          λ l. put.left l ∙ rw turned_down refl,
        )
        | inl taken ↦
            let dropped = drop s₁ put.key in
            let gone = drop s₂ dropped.key in
            let (ks, complete, lists) =
              keys_run c json aad_json api hooks b blob refused manager wrapper unwrapped works s₁
                put.key in
            let here₁ : texts s₁ i.key ≡ some x = put.left i.key ∙ rw (taken, own) refl in
            let there₁ : texts s₁ j ≡ texts s j = put.left j ∙ rw (taken, other) refl in
            let here₂ : texts s₂ i.key ≡ none = dropped.left i.key ∙ rw own refl in
            let there₂ : texts s₂ j ≡ texts s j = dropped.left j ∙ rw other there₁ in
            let before = get_of j (texts s j) s held refl opens in
            inr (
              put.result ∙ rw taken refl,
              get_of i.key (some x) s₁ put.key here₁ (i.content, holds) ∙ rw holds refl,
              get_of j (texts s j) s₁ put.key there₁ opens ∙ sym before,
              dropped.result ∙ rw here₁ refl,
              get_of i.key none s₂ dropped.key here₂ tt,
              get_of j (texts s j) s₂ dropped.key there₂ opens ∙ sym before,
              gone.result ∙ rw here₂ refl,
              (ks, lists.result, complete),
            )
      ]
