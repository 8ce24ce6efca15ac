-- ===== src/WinHello/Passport/Leaks.antt =====
-- The handles that opening and creating a key open and free (winhello/passport.go).
use keyring.Prelude.{ℕ, Bytes, [], ◌∷◌, ◌≡◌, ◌+◌, arith, nat_eq}
use keyring.Errors.{Error}
use keyring.Exec.{Exec, Result, ok, err}
use keyring.WinHello.Window.{Ask}
use keyring.WinHello.NCrypt.{Handle, NCrypt}
use keyring.WinHello.NCrypt.Trace.{Trace, Environment, traced, opens, frees}
use keyring.WinHello.Passport.Handles.{
  Nets, Acquires, Nets-raise, Nets-ignore_free, Nets-attempt_free, Nets-attempt_bind, Nets-acquire,
  Nets-finally, Nets-attempt_acquire, Acquires-on_error, Acquires-bind, Acquires-setup,
}
use keyring.WinHello.Passport.Calls.{
  call_rules, ask_window, look_up, look_up-Nets, set_window-Nets, free-Nets, set_uint32-Nets,
  finalize-Nets, open_provider-Acquires, open_key-Acquires, create_key-Acquires,
}
use keyring.WinHello.Passport.{
  PassportKey, set_window_handle_if_present, open_passport_provider, probe_passport_key,
  with_provider, open_winhello_passport_key, set_legacy_cache_type, set_passport_ngc_cache_type,
  initialize_passport_key, provider_freed, key_freed, key_finalized, key_initialized, key_created,
  provider_for_create, create_winhello_passport_key, or_create, ensure_winhello_passport_key,
}

module _ (env : Environment) (window : Trace → ℕ) (names : Trace → Bytes → Result Bytes) where
  abbrev asks : Ask Trace ℕ
  asks = ask_window env window names

  abbrev finds : Bytes → Exec Trace Bytes
  finds = look_up env window names

  abbrev nc : NCrypt Trace
  nc = traced env

  open_provider-Nets :
      (l : Bytes) (hwnd : ℕ) → Acquires (λ p. p.0) (open_passport_provider nc finds asks l hwnd)
  unfolding open_passport_provider
  open_provider-Nets l hwnd =
      Acquires-bind (λ p. p.0) (finds l) _ (look_up-Nets env window names l)
        λ name.
          Acquires-setup _ (λ h. set_window_handle_if_present nc finds asks h hwnd) name
            (Acquires-on_error _ (λ h. h) _ (open_provider-Acquires env _))
            (λ h. set_window-Nets env window names h hwnd)

  probe-Nets :
      (hwnd : ℕ) (name : Bytes) (h : Handle)
      → Nets (h ∷ []) (probe_passport_key nc finds asks hwnd name (ok h))
  unfolding probe_passport_key
  probe-Nets hwnd name h = record { at = λ t k. ground (arith, (free-Nets env h).at t k) }

  probe_failed-Nets :
      (hwnd : ℕ) (name : Bytes) (e : Error)
      → Nets [] (probe_passport_key nc finds asks hwnd name (err e))
  unfolding probe_passport_key
  probe_failed-Nets hwnd name e = search (call_rules)

  with_provider-Nets :
      (hwnd : ℕ) (p : Handle × Bytes) → Nets (p.0 ∷ []) (with_provider nc finds asks hwnd p)
  unfolding with_provider
  with_provider-Nets hwnd (h, name) = Nets-finally h (nc.free_object h) _ (free-Nets env h) (
      Nets-attempt_acquire (nc.open_key h name) (λ r. probe_passport_key nc finds asks hwnd name r)
        (open_key-Acquires env h name) (λ k. probe-Nets hwnd name k)
        (λ e. probe_failed-Nets hwnd name e))

  open_winhello-Nets :
      (l : Bytes) (hwnd : ℕ) → Nets [] (open_winhello_passport_key nc finds asks l hwnd)
  unfolding open_winhello_passport_key
  open_winhello-Nets l hwnd =
      Nets-acquire (λ p. p.0) _ _ (open_provider-Nets l hwnd) (λ p. with_provider-Nets hwnd p)

  legacy-Nets :
      (h : Handle) (r : Result (Unit {0})) → Nets [] (set_legacy_cache_type nc finds asks h r)
  unfolding set_legacy_cache_type
  legacy-Nets h (ok u) = search (call_rules)
  legacy-Nets h (err e) = search (call_rules)

  cache_type-Nets : (h : Handle) → Nets [] (set_passport_ngc_cache_type nc finds asks h)
  unfolding set_passport_ngc_cache_type
  cache_type-Nets h = Nets-attempt_bind _ _ (set_uint32-Nets env h _ _) (λ r. legacy-Nets h r)

  initialize-Nets : (h : Handle) (hwnd : ℕ) → Nets [] (initialize_passport_key nc finds asks h hwnd)
  unfolding initialize_passport_key
  initialize-Nets h hwnd = search (call_rules, set_window-Nets, cache_type-Nets) depth 9

  provider_freed-Nets :
      (key : PassportKey) (r : Result (Unit {0})) → Nets [] (provider_freed nc finds asks key r)
  unfolding provider_freed
  provider_freed-Nets key (ok u) = search (call_rules)
  provider_freed-Nets key (err e) = search (call_rules)

  key_freed-Nets :
      (key : PassportKey) (provider : Handle) (r : Result (Unit {0}))
      → Nets (provider ∷ []) (key_freed nc finds asks key provider r)
  unfolding key_freed
  key_freed-Nets key provider (ok u) =
      Nets-attempt_free provider (nc.free_object provider) (provider_freed nc finds asks key)
        (free-Nets env provider) (provider_freed-Nets key)
  key_freed-Nets key provider (err e) =
      Nets-ignore_free provider _ _ (free-Nets env provider) (Nets-raise _)

  key_finalized-Nets :
      (key : PassportKey) (provider created : Handle) (r : Result (Unit {0}))
      → Nets (created ∷ provider ∷ []) (key_finalized nc finds asks key provider created r)
  unfolding key_finalized
  key_finalized-Nets key provider created (ok u) =
      Nets-attempt_free created (nc.free_object created) (key_freed nc finds asks key provider)
        (free-Nets env created) (key_freed-Nets key provider)
  key_finalized-Nets key provider created (err e) =
      Nets-ignore_free created _ _ (free-Nets env created)
        (Nets-ignore_free provider _ _ (free-Nets env provider) (Nets-raise _))

  key_initialized-Nets :
      (key : PassportKey) (provider created : Handle) (r : Result (Unit {0}))
      → Nets (created ∷ provider ∷ []) (key_initialized nc finds asks key provider created r)
  unfolding key_initialized
  key_initialized-Nets key provider created (ok u) =
      Nets-attempt_bind (nc.finalize_key created) (key_finalized nc finds asks key provider created)
        (finalize-Nets env created) (key_finalized-Nets key provider created)
  key_initialized-Nets key provider created (err e) =
      Nets-ignore_free created _ _ (free-Nets env created)
        (Nets-ignore_free provider _ _ (free-Nets env provider) (Nets-raise _))

  provider_for_create-Nets :
      (hwnd : ℕ) (p : Handle × Bytes) → Nets (p.0 ∷ []) (provider_for_create nc finds asks hwnd p)
  unfolding provider_for_create key_created
  provider_for_create-Nets hwnd (provider, name) =
      let key : PassportKey = record { key_name = name; hwnd = hwnd } in
      Nets-attempt_acquire (nc.create_persisted_key provider _ name)
        (key_created nc finds asks key provider) (create_key-Acquires env provider _ name)
        (λ h.
          Nets-attempt_bind (initialize_passport_key nc finds asks h hwnd)
            (key_initialized nc finds asks key provider h) (initialize-Nets h hwnd)
            (key_initialized-Nets key provider h))
        (λ e. Nets-ignore_free provider _ _ (free-Nets env provider) (Nets-raise _))

  create_winhello-Nets :
      (l : Bytes) (hwnd : ℕ) → Nets [] (create_winhello_passport_key nc finds asks l hwnd)
  unfolding create_winhello_passport_key
  create_winhello-Nets l hwnd =
      Nets-acquire (λ p. p.0) _ _ (open_provider-Nets l hwnd) (λ p. provider_for_create-Nets hwnd p)

  or_create-Nets :
      (l : Bytes) (hwnd : ℕ) (r : Result PassportKey) → Nets [] (or_create nc finds asks l hwnd r)
  unfolding or_create
  or_create-Nets l hwnd (ok key) = search (call_rules)
  or_create-Nets l hwnd (err e) = search (call_rules, create_winhello-Nets)

  ensure-Nets : (l : Bytes) (hwnd : ℕ) → Nets [] (ensure_winhello_passport_key nc finds asks l hwnd)
  unfolding ensure_winhello_passport_key
  ensure-Nets l hwnd =
      Nets-attempt_bind (open_winhello_passport_key nc finds asks l hwnd)
        (or_create nc finds asks l hwnd) (open_winhello-Nets l hwnd) (or_create-Nets l hwnd)

  -- Opening the Passport key, creating it where there is none, frees every handle as often as it
  -- was handed out, whichever of the calls fail.
  pub ensure_winhello_passport_key_settles :
      (logical_name : Bytes) (hwnd : ℕ) (t : Trace) (k : Handle)
      → let t' = (ensure_winhello_passport_key nc finds asks logical_name hwnd t).1 in
        opens k t' + frees k t ≡ frees k t' + opens k t
  ensure_winhello_passport_key_settles l hwnd t k = omega (arith, (ensure-Nets l hwnd).at t k)
