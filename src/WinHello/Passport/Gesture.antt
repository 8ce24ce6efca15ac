-- ===== src/WinHello/Passport/Gesture.antt =====
-- When a key is unwrapped, and what the user is asked before (winhello/wrap.go).
use Prim.Native.Nat.{bit_or}
use keyring.WinHello.Envelope.{provider_passport_ksp}
use keyring.Prelude.{
  ℕ, ◌≡◌, refl, Bytes, [], ◌∷◌, some, arith, nat_eq, is_empty, or_default, Bool-cases, inl, inr,
}
use keyring.Errors.{wrapf}
use keyring.Exec.{Exec, Result, ok, err, on_error, rethrow, continue, ◌>>=◌}
use keyring.WinHello.Window.{Ask}
use keyring.WinHello.NCrypt.{
  Handle, NCrypt, pad_pkcs1_flag, pin_cache_is_gesture_required_property, use_context_property,
}
use keyring.WinHello.NCrypt.Trace.{Trace, Environment, traced, uint32_set, string_set, decrypted}
use keyring.WinHello.Passport.Calls.{ask_window, look_up}
use keyring.WinHello.Passport.{PassportKey, set_handle, set_window_handle_if_present}
use keyring.WinHello.Passport.Wrap.{
  passport_default_unwrap_context, opened_operation_key, provider_for_operation, with_operation_key,
  prepare_passport_unwrap, check_cek, run_unwrap, unwrap_key_with_flags,
}

-- The last two calls told the handle what to show the user, and that a gesture is required, and
-- both succeeded.
abbrev pub AsksUser : Handle → Trace → Type 0
AsksUser h (uint32_set g p v (ok u) ∷ string_set k q x (ok u') ∷ t) =
    (g ≡ h)
    × (p ≡ pin_cache_is_gesture_required_property)
    × (v ≡ 1)
    × (k ≡ h)
    × (q ≡ use_context_property)
AsksUser h t = ⊥

-- Each decryption of the history came right after its user was asked.
abbrev pub IsGuarded : Trace → Type 0
IsGuarded [] = Unit
IsGuarded (decrypted h x f r ∷ t) = AsksUser h t × IsGuarded t
IsGuarded (e ∷ t) = IsGuarded t

-- What a preparation for unwrapping leaves: the user was asked, if it succeeded.
abbrev Prepared : Handle → Result (Unit {0}) → Trace → Type 0
Prepared h (ok u) t = IsGuarded t × AsksUser h t
Prepared h (err e) t = IsGuarded t

record Guards {A : Type 0} (m : Exec Trace A) : Type 0 where
  at : (t : Trace) → IsGuarded t → IsGuarded (m t).1

module _ {A B : Type 0} where
  IsGuarded-continue :
      (r : Result A) (f : A → Exec Trace B) (t : Trace)
      → IsGuarded t
      → ((a : A) → Guards (f a))
      → IsGuarded (continue r f t).1
  IsGuarded-continue (ok a) f t h hf = (hf a).at t h
  IsGuarded-continue (err e) f t h hf = h

  Guards-bind :
      (m : Exec Trace A) (f : A → Exec Trace B)
      → Guards m
      → ((a : A) → Guards (f a))
      → Guards (m >>= f)
  Guards-bind m f hm hf = record { at = λ t h. IsGuarded-continue (m t).0 f (m t).1 (hm.at t h) hf }

module _ (env : Environment) (window : Trace → ℕ) (names : Trace → Bytes → Result Bytes) where
  abbrev nc : NCrypt Trace
  nc = traced env

  abbrev asks : Ask Trace ℕ
  asks = ask_window env window names

  abbrev finds : Bytes → Exec Trace Bytes
  finds = look_up env window names

  set_window-Guards :
      (h : Handle) (hwnd : ℕ) → Guards (set_window_handle_if_present nc finds asks h hwnd)
  unfolding set_window_handle_if_present set_handle traced
  set_window-Guards h hwnd = record { at = λ t g. ground arith }

  asked :
      (h : Handle) (x : Bytes) (u : Unit {0}) (r : Result (Unit {0})) (t : Trace)
      → IsGuarded t
      → Prepared h r (
          uint32_set h pin_cache_is_gesture_required_property 1 r
          ∷ string_set h use_context_property x (ok u)
          ∷ t)
  asked h x u (ok v) t g = (g, (refl, refl, refl, refl, refl))
  asked h x u (err e) t g = g

  told :
      (h : Handle) (x : Bytes) (r : Result (Unit {0})) (t : Trace)
      → IsGuarded t
      → let done =
          continue r
            (λ _. nc.set_uint32_property h pin_cache_is_gesture_required_property 1)
            (string_set h use_context_property x r ∷ t) in
        Prepared h done.0 done.1
  unfolding traced
  told h x (ok u) t g = asked h x u _ t g
  told h x (err e) t g = g

  prepared :
      (h : Handle) (hwnd : ℕ) (context : Bytes) (t : Trace)
      → IsGuarded t
      → let done = prepare_passport_unwrap nc finds asks h hwnd context t in
        Prepared h done.0 done.1
  unfolding prepare_passport_unwrap traced
  prepared h hwnd context t g =
      let x = or_default context passport_default_unwrap_context in
      let t₁ = (set_window_handle_if_present nc finds asks h hwnd t).1 in
      told h x (nc.set_string_property h use_context_property x t₁).0 t₁
        ((set_window-Guards h hwnd).at t g)

  checked : (cek : Bytes) → Guards (check_cek nc finds asks cek)
  unfolding check_cek
  checked cek = record { at = λ t g. ground arith }

  decrypted-Guards :
      (h : Handle) (wrapped : Bytes) (flags : ℕ) (r : Result (Unit {0})) (t : Trace)
      → Prepared h r t
      → IsGuarded
          (continue
            (rethrow (wrapf "prepare Passport key for unwrap: %w") r)
            (λ _.
              on_error (wrapf "unwrap CEK with Passport key: %w") (nc.decrypt h wrapped flags)
              >>= check_cek nc finds asks)
            t).1
  unfolding traced
  decrypted-Guards h wrapped flags (ok u) t (g, asks_user) =
      IsGuarded-continue
        (rethrow (wrapf "unwrap CEK with Passport key: %w") (nc.decrypt h wrapped flags t).0)
        (check_cek nc finds asks) (nc.decrypt h wrapped flags t).1 (asks_user, g) checked
  decrypted-Guards h wrapped flags (err e) t g = g

  run_unwrap-Guards :
      (key : PassportKey) (wrapped context : Bytes) (flags : ℕ) (h : Handle)
      → Guards (run_unwrap nc finds asks key wrapped context flags h)
  unfolding run_unwrap
  run_unwrap-Guards key wrapped context flags h = record {
    at = λ t g.
        let done = prepare_passport_unwrap nc finds asks h key.hwnd context t in
        decrypted-Guards h wrapped (bit_or pad_pkcs1_flag flags) done.0 done.1
          (prepared h key.hwnd context t g);
  }

  module _ {A : Type 0} (run : Handle → Exec Trace A) (runs : (h : Handle) → Guards (run h)) where
    opened-Guards : (r : Result Handle) → Guards (opened_operation_key nc finds asks run r)
    unfolding opened_operation_key traced
    opened-Guards (ok h) = record { at = λ t g. (runs h).at t g }
    opened-Guards (err e) = record { at = λ t g. ground arith }

    provider-Guards :
        (key : PassportKey) (p : Handle) → Guards (provider_for_operation nc finds asks key run p)
    unfolding provider_for_operation traced
    provider-Guards key p = record {
      at = λ t g. (opened-Guards _).at _ ((set_window-Guards p key.hwnd).at t g);
    }

    with_operation_key-Guards :
        (key : PassportKey) → Guards (with_operation_key nc finds asks (some key) run)
    unfolding with_operation_key traced
    with_operation_key-Guards key = record {
      at = λ t g. elim (Bool-cases (is_empty key.key_name)) [
        | inl h ↦ rw h g
        | inr h ↦ rw h (
            (Guards-bind
                (on_error (wrapf "open Passport provider: %w")
                  (nc.open_storage_provider provider_passport_ksp))
                (provider_for_operation nc finds asks key run) (record { at = λ v x. x })
                (provider-Guards key)).at
              t g)
      ];
    }

  -- Unwrapping, with any flags and whatever NCrypt answers, makes no decryption that does not come
  -- right after the handle was told what to show the user and that a gesture is required.
  pub unwrap_key_with_flags-IsGuarded :
      (key : PassportKey) (wrapped context : Bytes) (flags : ℕ) (t : Trace)
      → IsGuarded t
      → IsGuarded (unwrap_key_with_flags nc finds asks key wrapped context flags t).1
  unfolding unwrap_key_with_flags
  unwrap_key_with_flags-IsGuarded key wrapped context flags t g =
      (with_operation_key-Guards (run_unwrap nc finds asks key wrapped context flags)
          (run_unwrap-Guards key wrapped context flags) key).at
        t g
