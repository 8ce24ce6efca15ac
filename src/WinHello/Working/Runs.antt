-- ===== src/WinHello/Working/Runs.antt =====
-- Each operation of the Windows Hello keyring (winhello.go) where everything works.
use mathlib.Core.Option
use keyring.Prelude.{
  ◌≡◌, refl, sym, subst, ◌⊎◌, inl, inr, Bytes, Option, none, some, List, true, not, ◌&&◌, contains,
  is_some, arith, list_eq, nat_eq, if◌then◌else◌,
}
use keyring.Errors.{Error, wrapf, sentinel, err_key_not_found}
use keyring.Exec.{Result, ok, err, found}
use keyring.Contract.{accepted}
use keyring.Api.{Item, plain_item}
use keyring.Stored.{value_of}
use keyring.Credentials.{Credentials, IsManager}
use keyring.WinHello.Envelope.{EnvelopeCodec}
use keyring.WinHello.Crypto.{KeyWrapper, Cryptography, AadCodec, winhello_aad, encrypt_envelope}
use keyring.WinHello.Store.{read, store_credential_name}
use keyring.WinHello.Store.Laws.{
  same_key, envelope_at, read_result, envelope_at-read, write_result, envelope_at-write,
  store_keys_result, envelope_at-store_keys,
}
use keyring.WinHello.Backend
use keyring.WinHello.Backend.{
  Hooks, Backend, Session, outside, ensure_wrapper, open_wrapper, use_context,
}
use keyring.WinHello.Working.{IsWorking, plaintext_of, Opens}
use keyring.WinHello.Working.Sealing.{seals, decrypts}
use keyring.WinHello.Ring.{remove_result, remove_envelope, get_missing}
use keyring.WinHello.{get, set, remove, keys}

module _ {W Block Gcm : Type 0} (c : Cryptography W Block Gcm) (json : EnvelopeCodec)
    (aad_json : AadCodec) (api : Credentials W) (hooks : Hooks W) (b : Backend)
    (blob : W → Bytes → Option Bytes) (refused : Bytes → Option Error) {fold : Bytes → Bytes}
    (manager : (w : W) → IsManager api fold blob refused w) (wrapper : KeyWrapper W)
    (unwrapped : Bytes → Result Bytes)
    (works : IsWorking c json aad_json hooks b blob wrapper unwrapped) where
  abbrev pub text_at : Session W → Bytes → Option Bytes
  text_at s key = envelope_at api blob refused manager b.service_name s.world key

  abbrev pub held_in : Bytes → Bytes → Result Bytes
  held_in = plaintext_of c json aad_json b unwrapped

  abbrev pub shown : Bytes → Option Bytes → Option Item
  shown key none = none
  shown key (some x) = Option.map (plain_item key) (value_of (held_in key x))

  -- The items that a session has: what opens under its own key.
  abbrev pub view : Session W → Bytes → Option Item
  view s key = shown key (text_at s key)

  -- No key yet, or the one that there is.
  abbrev pub IsHeld : Option (KeyWrapper W) → Type 0
  IsHeld o = (o ≡ none) ⊎ (o ≡ some wrapper)

  IsHeld-of_eq : (o o' : Option (KeyWrapper W)) → IsHeld o' → o ≡ o' → IsHeld o
  IsHeld-of_eq o o' h e = subst IsHeld (sym e) h

  -- How an operation ends: its result, the envelopes that it leaves, and its key.
  pub record Ends {A : Type 0} (run : Result A × Session W) (r : Result A)
      (texts : Bytes → Option Bytes) : Type 0 where
    pub result : run.0 ≡ r
    pub left : (j : Bytes) → text_at run.1 j ≡ texts j
    pub key : IsHeld run.1.wrapper

  obtained :
      (s : Session W)
      → IsHeld s.wrapper
      → Ends (ensure_wrapper hooks b s) (ok wrapper) (text_at s)
        × Ends (open_wrapper hooks b s) (ok wrapper) (text_at s)
  unfolding ensure_wrapper open_wrapper outside
  obtained s (inl h) =
      let (hwnd, w) = hooks.parent_hwnd s.world in
      let same =
        λ (j : Bytes). works.window_spares s.world (store_credential_name b.service_name j) in
      let made = works.ensures b.logical_name hwnd w in
      let opens = works.opens b.logical_name hwnd w in
      (
        record {
          result = ground (arith, h, made);
          left = λ j. ground (
            arith,
            h,
            made,
            same j,
            works.ensure_spares b.logical_name hwnd w (store_credential_name b.service_name j),
          );
          key = inr (ground (arith, h, made));
        },
        record {
          result = ground (arith, h, opens);
          left = λ j. ground (
            arith,
            h,
            opens,
            same j,
            works.open_spares b.logical_name hwnd w (store_credential_name b.service_name j),
          );
          key = inr (ground (arith, h, opens));
        },
      )
  obtained s (inr h) = (
    record { result = ground arith; left = λ j. ground arith; key = inr (ground arith) },
    record { result = ground arith; left = λ j. ground arith; key = inr (ground arith) },
  )

  get_stored :
      (key x p : Bytes) (s : Session W)
      → IsHeld s.wrapper
      → text_at s key ≡ some x
      → held_in key x ≡ ok p
      → Ends (get c json aad_json api hooks b key s) (ok (plain_item key p)) (text_at s)
  unfolding get Backend.get outside
  get_stored key x p s held there h =
      let w₁ = (read api b.service_name key s.world).1 in
      let s₁ = record s { world = w₁ } in
      let got = read_result api blob refused manager b.service_name s.world key in
      let kept = envelope_at-read api blob refused manager b.service_name s.world key in
      let opened = (obtained s₁ held).1 in
      let w₂ = (open_wrapper hooks b s₁).1.world in
      let back =
        decrypts c json aad_json hooks b blob wrapper unwrapped works key x p
          (use_context b.service_name key) w₂ h in
      record {
        result = ground (arith, got, there, opened.result, back.0);
        left = λ j. ground (
          arith,
          got,
          there,
          opened.result,
          back.0,
          back.1 (store_credential_name b.service_name j),
          opened.left j,
          kept j,
        );
        key =
            IsHeld-of_eq _ (open_wrapper hooks b s₁).1.wrapper opened.key
              (ground (arith, got, there, opened.result, back.0));
      }

  get_missing_run :
      (key : Bytes) (s : Session W)
      → IsHeld s.wrapper
      → text_at s key ≡ none
      → Ends (get c json aad_json api hooks b key s) (found none) (text_at s)
  unfolding get Backend.get outside
  get_missing_run key s held missing =
      let got = read_result api blob refused manager b.service_name s.world key in
      let kept = envelope_at-read api blob refused manager b.service_name s.world key in
      record {
        result = get_missing c json aad_json api hooks b blob refused manager key s missing;
        left = λ j. ground (arith, got, missing, kept j);
        key = IsHeld-of_eq _ s.wrapper held (ground (arith, got, missing));
      }

  pub get_run :
      (key : Bytes) (s : Session W)
      → IsHeld s.wrapper
      → Opens c json aad_json b unwrapped key (text_at s key)
      → Ends (get c json aad_json api hooks b key s) (found (view s key)) (text_at s)
  get_run key s held open_key =
      elim (text_at s key)
          as (λ o.
            text_at s key ≡ o
            → Opens c json aad_json b unwrapped key o
            → Ends (get c json aad_json api hooks b key s) (found (shown key o)) (text_at s)) [
              | none ↦ λ there h. get_missing_run key s held there
              | some x ↦ λ there (p, h). rw h (get_stored key x p s held there h)
            ]
        refl open_key

  pub set_run :
      (i : Item) (s : Session W)
      → IsHeld s.wrapper
      → (x : Bytes) × (held_in i.key x ≡ ok i.content)
        × Ends
            (set c json aad_json api hooks b i s)
            (accepted (Option.map (wrapf "write winhello item %q: %w") (refused x)))
            (λ j.
              if not (is_some (refused x)) && same_key fold b.service_name i.key j
              then some x
              else text_at s j)
  unfolding set Backend.set outside
  set_run i s held =
      let prepared = (obtained s held).0 in
      let w₁ = (ensure_wrapper hooks b s).1.world in
      let (x, holds, sealed) =
        seals c json aad_json hooks b blob wrapper unwrapped works i.key i.content w₁ in
      let w₂ =
        (encrypt_envelope c json i.content (winhello_aad aad_json b.service_name i.key) b.key_name
          (some wrapper) w₁).1 in
      let wrote = write_result api blob refused manager b.service_name w₂ i.key x in
      (
        x,
        holds,
        record {
          result = ground (arith, prepared.result, sealed.0, wrote);
          left = λ j. ground (
            arith,
            prepared.result,
            sealed.0,
            wrote,
            envelope_at-write api blob refused manager b.service_name w₂ i.key x j,
            sealed.1 (store_credential_name b.service_name j),
            prepared.left j,
          );
          key =
              IsHeld-of_eq _ (ensure_wrapper hooks b s).1.wrapper prepared.key
                (ground (arith, prepared.result, sealed.0, wrote));
        },
      )

  pub remove_run :
      (key : Bytes) (s : Session W)
      → IsHeld s.wrapper
      → Ends
          (remove c json aad_json api hooks b key s)
          (if is_some (text_at s key) then ok tt else err (sentinel err_key_not_found))
          (λ j. if same_key fold b.service_name key j then none else text_at s j)
  unfolding remove Backend.remove outside
  remove_run key s held = record {
    result = remove_result c json aad_json api hooks b blob refused manager key s;
    left = λ j. remove_envelope c json aad_json api hooks b blob refused manager key j s;
    key = held;
  }

  pub keys_run :
      (s : Session W)
      → IsHeld s.wrapper
      → (ks : List Bytes) × ((j : Bytes) → contains ks j ≡ true → is_some (text_at s j) ≡ true)
        × Ends (keys c json aad_json api hooks b s) (ok ks) (text_at s)
  unfolding keys Backend.backend_keys outside
  keys_run s held =
      let (ks, same, sorted, complete) =
        store_keys_result api blob refused manager b.service_name s.world in
      let same_left = envelope_at-store_keys api blob refused manager b.service_name s.world in
      (ks, complete, record { result = ground arith; left = λ j. same_left j; key = held })
