-- ===== src/WinHello/Passport/Operations.antt =====
-- The handles that wrapping and unwrapping a key open and free (winhello/wrap.go).
use keyring.Prelude.{ℕ, ◌≡◌, ◌+◌, Bytes, [], ◌∷◌, Option, none, some, arith}
use keyring.Errors.{Error}
use keyring.Exec.{Exec, Result, ok, err}
use keyring.WinHello.Window.{Ask}
use keyring.WinHello.NCrypt.{Handle, NCrypt}
use keyring.WinHello.NCrypt.Trace.{Trace, Environment, traced, opens, frees}
use keyring.WinHello.Passport.Handles.{
  Nets, Nets-if, Nets-raise, Nets-bind, Nets-acquire, Nets-attempt_acquire, Nets-finally,
  Nets-ignore, Acquires-on_error,
}
use keyring.WinHello.Passport.Calls.{
  call_rules, ask_window, look_up, set_window-Nets, free-Nets, open_provider-Acquires,
  open_key-Acquires,
}
use keyring.WinHello.Passport.{PassportKey, set_window_handle_if_present}
use keyring.WinHello.Passport.Wrap.{
  opened_operation_key, provider_for_operation, with_operation_key, prepare_passport_unwrap,
  run_wrap, wrap_key, check_cek, run_unwrap, unwrap_key_with_flags,
}

module _ (env : Environment) (window : Trace → ℕ) (names : Trace → Bytes → Result Bytes) where
  abbrev nc : NCrypt Trace
  nc = traced env

  abbrev asks : Ask Trace ℕ
  asks = ask_window env window names

  abbrev finds : Bytes → Exec Trace Bytes
  finds = look_up env window names

  set_window : (h : Handle) (hwnd : ℕ) → Nets [] (set_window_handle_if_present nc finds asks h hwnd)
  set_window h hwnd = set_window-Nets env window names h hwnd

  module _ {A : Type 0} (run : Handle → Exec Trace A) (runs : (h : Handle) → Nets [] (run h)) where
    opened-Nets : (h : Handle) → Nets (h ∷ []) (opened_operation_key nc finds asks run (ok h))
    unfolding opened_operation_key
    opened-Nets h = Nets-finally h (nc.free_object h) (run h) (free-Nets env h) (runs h)

    not_opened-Nets : (e : Error) → Nets [] (opened_operation_key nc finds asks run (err e))
    unfolding opened_operation_key
    not_opened-Nets e = search (call_rules)

    provider-Nets :
        (key : PassportKey) (p : Handle)
        → Nets (p ∷ []) (provider_for_operation nc finds asks key run p)
    unfolding provider_for_operation
    provider-Nets key p = Nets-finally p (nc.free_object p) _ (free-Nets env p) (
        Nets-bind _ _ (Nets-ignore _ (set_window p key.hwnd)) (λ _.
          Nets-attempt_acquire (nc.open_key p key.key_name) (opened_operation_key nc finds asks run)
            (open_key-Acquires env p key.key_name) opened-Nets not_opened-Nets))

    with_operation_key-Nets :
        (key : Option PassportKey) → Nets [] (with_operation_key nc finds asks key run)
    unfolding with_operation_key
    with_operation_key-Nets none = Nets-raise _
    with_operation_key-Nets (some key) = Nets-if _ _ _ (Nets-raise _) (
        Nets-acquire (λ h. h) _ _ (Acquires-on_error _ _ _ (open_provider-Acquires env _))
          (provider-Nets key))

  run_wrap-Nets :
      (key : PassportKey) (cek : Bytes) (h : Handle) → Nets [] (run_wrap nc finds asks key cek h)
  unfolding run_wrap
  run_wrap-Nets key cek h = search (call_rules, set_window)

  check_cek-Nets : (cek : Bytes) → Nets [] (check_cek nc finds asks cek)
  unfolding check_cek
  check_cek-Nets cek = search (call_rules)

  prepare-Nets :
      (h : Handle) (hwnd : ℕ) (context : Bytes)
      → Nets [] (prepare_passport_unwrap nc finds asks h hwnd context)
  unfolding prepare_passport_unwrap
  prepare-Nets h hwnd context = search (call_rules, set_window) depth 7

  run_unwrap-Nets :
      (key : PassportKey) (wrapped context : Bytes) (flags : ℕ) (h : Handle)
      → Nets [] (run_unwrap nc finds asks key wrapped context flags h)
  unfolding run_unwrap
  run_unwrap-Nets key wrapped context flags h =
      search (call_rules, prepare-Nets, check_cek-Nets) depth 7

  -- Wrapping a content key and unwrapping one, with any flags, free every handle as often as it
  -- was handed out, whichever of the calls fail.
  pub operations_settle :
      (key : PassportKey) (cek wrapped context : Bytes) (flags : ℕ) (t : Trace) (k : Handle)
      → let t₁ = (wrap_key nc finds asks key cek t).1 in
        let t₂ = (unwrap_key_with_flags nc finds asks key wrapped context flags t).1 in
        (opens k t₁ + frees k t ≡ frees k t₁ + opens k t)
        × (opens k t₂ + frees k t ≡ frees k t₂ + opens k t)
  unfolding wrap_key unwrap_key_with_flags
  operations_settle key cek wrapped context flags t k =
      let wraps : Nets [] (wrap_key nc finds asks key cek) = Nets-if _ _ _ (Nets-raise _) (
        with_operation_key-Nets (run_wrap nc finds asks key cek) (run_wrap-Nets key cek)
          (some key)) in
      let unwraps : Nets [] (unwrap_key_with_flags nc finds asks key wrapped context flags) =
        with_operation_key-Nets (run_unwrap nc finds asks key wrapped context flags)
          (run_unwrap-Nets key wrapped context flags) (some key) in
      (omega (arith, wraps.at t k), omega (arith, unwraps.at t k))
