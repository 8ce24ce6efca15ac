-- ===== src/WinHello/Backend/Writes.antt =====
-- `Set` and then `Get` (winhello/backend.go).
use keyring.Prelude.{
  ℕ, ◌≡◌, refl, ap, ◌∙◌, Bytes, Bool, true, Option, none, some, arith, list_eq, nat_eq,
}
use keyring.Errors.{Error, wrapf}
use keyring.Exec.{Exec, ok, on_error}
use keyring.Exec.Runs.{>>=-eq-ok, on_error-eq-ok}
use keyring.Credentials.{Credentials, IsManager}
use keyring.WinHello.Envelope.{Envelope, EnvelopeCodec}
use keyring.WinHello.Crypto.{KeyWrapper, Cryptography, AadCodec, winhello_aad, encrypt_envelope}
use keyring.WinHello.Crypto.RoundTrip.{decrypt_envelope-encrypt_envelope}
use keyring.WinHello.Store.{read, write}
use keyring.WinHello.Store.Laws.{envelope_at, read_result, write_result, envelope_at-write}
use keyring.WinHello.Backend.{
  Hooks, Backend, Session, outside, obtain, remember, ensure_wrapper, open_wrapper, use_context,
  get, set, encrypt_item, decrypt_item,
}

module _ {W : Type 0} (hooks : Hooks W) (b : Backend) where
  obtain_keeps :
      (func : Bytes → ℕ → Exec W (KeyWrapper W)) (o : Option (KeyWrapper W)) (s : Session W)
      {wrapper : KeyWrapper W}
      → s.wrapper ≡ o
      → (obtain hooks b func o s).0 ≡ ok wrapper
      → (obtain hooks b func o s).1.wrapper ≡ some wrapper
  unfolding obtain outside remember
  obtain_keeps func (some x) s same h = ground arith
  obtain_keeps func none s same h = ground arith

  -- A wrapper that was obtained is the session's, and is not asked for again.
  pub ensure_wrapper_keeps :
      (s : Session W) {wrapper : KeyWrapper W}
      → (ensure_wrapper hooks b s).0 ≡ ok wrapper
      → (ensure_wrapper hooks b s).1.wrapper ≡ some wrapper
  unfolding ensure_wrapper
  ensure_wrapper_keeps s h = obtain_keeps hooks.ensure_passport_key s.wrapper s refl h

  pub open_wrapper_of_some :
      (s : Session W) (wrapper : KeyWrapper W)
      → s.wrapper ≡ some wrapper
      → open_wrapper hooks b s ≡ (ok wrapper, s)
  unfolding open_wrapper
  open_wrapper_of_some s wrapper h = ground arith

outside_keeps : {W A : Type 0} (m : Exec W A) (s : Session W) → (outside m s).1.wrapper ≡ s.wrapper
unfolding outside
outside_keeps m s = refl

module _ {W Block Gcm : Type 0} (c : Cryptography W Block Gcm) (json : EnvelopeCodec)
    (aad_json : AadCodec) (api : Credentials W) (hooks : Hooks W) (b : Backend)
    (blob : W → Bytes → Option Bytes) (refused : Bytes → Option Error) {fold : Bytes → Bytes}
    (manager : (w : W) → IsManager api fold blob refused w) where
  -- How a successful `Set` went.
  record Stored (key plaintext : Bytes) (s' : Session W) : Type 0 where
    wrapper : KeyWrapper W
    before : W
    after : W
    encoded : Bytes
    encrypts :
        encrypt_envelope c json plaintext
          (winhello_aad aad_json b.service_name key)
          b.key_name
          (some wrapper)
          before
        ≡ (ok encoded, after)
    current : s'.wrapper ≡ some wrapper
    there : envelope_at api blob refused manager b.service_name s'.world key ≡ some encoded

  set-eq-ok :
      (key plaintext : Bytes) (s s' : Session W)
      → set c json aad_json api hooks b key plaintext s ≡ (ok tt, s')
      → Stored key plaintext s'
  unfolding set encrypt_item outside
  set-eq-ok key plaintext s s' h =
      let (wrapper, got, h₁) = >>=-eq-ok (on_error (wrapf _) (ensure_wrapper hooks b)) _ s h in
      let s₁ = (ensure_wrapper hooks b s).1 in
      let enc : Exec W Bytes =
        encrypt_envelope c json plaintext (winhello_aad aad_json b.service_name key) b.key_name
          (some wrapper) in
      let (encoded, done, h₂) = >>=-eq-ok (on_error (wrapf _) (outside enc)) _ s₁ h₁ in
      let w₂ = (enc s₁.world).1 in
      let made : (enc s₁.world).0 ≡ ok encoded = on_error-eq-ok (wrapf _) enc s₁.world done in
      let kept : s₁.wrapper ≡ some wrapper =
        ensure_wrapper_keeps hooks b s (on_error-eq-ok (wrapf _) (ensure_wrapper hooks b) s got) in
      let wrote : (write api b.service_name key encoded w₂).0 ≡ ok tt = ground arith in
      let left : s' ≡ record s₁ { world = (write api b.service_name key encoded w₂).1 } =
        ground arith in
      record {
        wrapper = wrapper;
        before = s₁.world;
        after = w₂;
        encoded = encoded;
        encrypts = λ i. (made i, w₂);
        current = ap (λ (x : Session W). x.wrapper) left ∙ kept;
        there =
            ap (λ (x : Session W). envelope_at api blob refused manager b.service_name x.world key)
              left
            ∙ ground (
              arith,
              write_result api blob refused manager b.service_name w₂ key encoded,
              envelope_at-write api blob refused manager b.service_name w₂ key encoded key,
            );
      }

  -- After a `Set` that succeeded, `Get` returns what was set, where the key that the session now
  -- holds opens what it wrapped, JSON reads back an envelope whose key name is a text, and the GCM
  -- opens what it sealed.
  pub get-set :
      (is_text : Bytes → Bool) (key plaintext : Bytes) (s s' : Session W)
      → ((e : Envelope) (x : Bytes)
          → is_text e.key_name ≡ true
          → json.encode e ≡ ok x
          → json.decode x ≡ ok e)
      → ((gcm : Gcm) (n p a : Bytes) → c.unseal gcm n (c.seal gcm n p a) a ≡ ok p)
      → ((wrapper : KeyWrapper W)
          → s'.wrapper ≡ some wrapper
          → (cek x context : Bytes) (u v : W) → (wrapper.wrap_key cek u).0 ≡ ok x
          → (wrapper.unwrap_key x context v).0 ≡ ok cek)
      → is_text b.key_name ≡ true
      → set c json aad_json api hooks b key plaintext s ≡ (ok tt, s')
      → (get c json aad_json api hooks b key s').0 ≡ ok plaintext
  unfolding get decrypt_item outside
  get-set is_text key plaintext s s' reads unseals unwraps named h =
      let st : Stored key plaintext s' = set-eq-ok key plaintext s s' h in
      let service = b.service_name in
      let w₁ = (read api service key s'.world).1 in
      let back =
        decrypt_envelope-encrypt_envelope c json is_text plaintext
          (winhello_aad aad_json service key) b.key_name (use_context service key) st.wrapper
          st.wrapper st.before st.after w₁ st.encoded reads unseals
          (λ cek x u. unwraps st.wrapper st.current cek x _ u w₁) named st.encrypts in
      ground (
        arith,
        read_result api blob refused manager service s'.world key,
        st.there,
        st.current,
        open_wrapper_of_some hooks b (record s' { world = w₁ }) st.wrapper st.current,
        back,
      )
