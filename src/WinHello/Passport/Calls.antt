-- ===== src/WinHello/Passport/Calls.antt =====
-- What each call of NCrypt hands out and frees (the function variables of winhello/passport.go), and
-- what setting the window handle does.
use keyring.Prelude.{ℕ, Bytes, [], ◌∷◌, arith, nat_eq}
use keyring.Exec.{Exec, Result}
use keyring.WinHello.Window.{Ask}
use keyring.WinHello.NCrypt.{Handle, NCrypt}
use keyring.WinHello.NCrypt.Trace.{Trace, Environment, traced}
use keyring.WinHello.Passport.Handles.{Nets, Acquires, net_rules}
use keyring.WinHello.Passport.{set_handle, set_window_handle_if_present}

module _ (env : Environment) where
  abbrev pub n : NCrypt Trace
  n = traced env

  pub free-Nets : (h : Handle) → Nets (h ∷ []) (n.free_object h)
  unfolding traced
  free-Nets h = record { at = λ t k. omega arith }

  pub set_uint32-Nets : (h : Handle) (p : Bytes) (v : ℕ) → Nets [] (n.set_uint32_property h p v)
  unfolding traced
  set_uint32-Nets h p v = record { at = λ t k. omega arith }

  pub set_string-Nets : (h : Handle) (p v : Bytes) → Nets [] (n.set_string_property h p v)
  unfolding traced
  set_string-Nets h p v = record { at = λ t k. omega arith }

  pub set_handle-Nets : (h : Handle) (p : Bytes) (v : ℕ) → Nets [] (n.set_handle_property h p v)
  unfolding traced
  set_handle-Nets h p v = record { at = λ t k. omega arith }

  pub finalize-Nets : (h : Handle) → Nets [] (n.finalize_key h)
  unfolding traced
  finalize-Nets h = record { at = λ t k. omega arith }

  pub encrypt-Nets : (h : Handle) (x : Bytes) (f : ℕ) → Nets [] (n.encrypt h x f)
  unfolding traced
  encrypt-Nets h x f = record { at = λ t k. omega arith }

  pub decrypt-Nets : (h : Handle) (x : Bytes) (f : ℕ) → Nets [] (n.decrypt h x f)
  unfolding traced
  decrypt-Nets h x f = record { at = λ t k. omega arith }

  pub open_provider-Acquires : (p : Bytes) → Acquires (λ h. h) (n.open_storage_provider p)
  unfolding traced
  open_provider-Acquires p = record { at = λ t k. ground arith }

  pub open_key-Acquires : (h : Handle) (x : Bytes) → Acquires (λ k. k) (n.open_key h x)
  unfolding traced
  open_key-Acquires h x = record { at = λ t k. ground arith }

  pub create_key-Acquires :
      (h : Handle) (a x : Bytes) → Acquires (λ k. k) (n.create_persisted_key h a x)
  unfolding traced
  create_key-Acquires h a x = record { at = λ t k. ground arith }

  pub ruleset call_rules = (
    net_rules, free-Nets, set_uint32-Nets, set_string-Nets, set_handle-Nets, finalize-Nets,
    encrypt-Nets, decrypt-Nets, open_provider-Acquires, open_key-Acquires, create_key-Acquires,
  )

-- The window and the key name are looked up without a call of NCrypt.
module _ (env : Environment) (window : Trace → ℕ) (names : Trace → Bytes → Result Bytes) where
  abbrev pub ask_window : Ask Trace ℕ
  ask_window t = (window t, t)

  abbrev pub look_up : Bytes → Exec Trace Bytes
  look_up l t = (names t l, t)

  pub look_up-Nets : (l : Bytes) → Nets [] (look_up l)
  look_up-Nets l = record { at = λ t k. omega arith }

  set_handle_if-Nets :
      (h : Handle) (hwnd : ℕ) → Nets [] (set_handle (traced env) look_up ask_window h hwnd)
  unfolding set_handle
  set_handle_if-Nets h hwnd = search (call_rules)

  pub set_window-Nets :
      (h : Handle) (hwnd : ℕ)
      → Nets [] (set_window_handle_if_present (traced env) look_up ask_window h hwnd)
  unfolding set_window_handle_if_present
  set_window-Nets h hwnd = record {
    at = λ t k.
        ground
          (arith, (set_handle_if-Nets h hwnd).at t k, (set_handle_if-Nets h (window t)).at t k);
  }
