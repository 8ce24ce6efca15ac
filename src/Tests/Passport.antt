-- ===== src/Tests/Passport.antt =====
-- NCrypt answering each call: handles are the number of calls before, and freeing a key fails.
use keyring.Prelude.{ℕ, ◌≡◌, ◌+◌, Bytes, codes, [], ◌∷◌, length}
use keyring.Errors.{errno}
use keyring.Exec.{Result, ok, err}
use keyring.WinHello.NCrypt.{err_bad_keyset}
use keyring.WinHello.NCrypt.Trace.{Trace, Environment, traced, opens, frees}
use keyring.WinHello.Passport.{PassportKey, ensure_winhello_passport_key}
use keyring.WinHello.Passport.Wrap.{wrap_key, unwrap_key_with_flags}
use keyring.WinHello.Passport.Calls.{ask_window, look_up}
use keyring.WinHello.Passport.Operations.{operations_settle}
use keyring.WinHello.Passport.Leaks.{ensure_winhello_passport_key_settles}
use keyring.WinHello.Passport.Gesture.{IsGuarded, unwrap_key_with_flags-IsGuarded}

abbrev environment : Environment
environment = record {
  provider = λ t p. ok (100 + length t);
  key = λ t h n. err (errno err_bad_keyset);
  created = λ t h a n. ok (100 + length t);
  uint32 = λ t h p v. ok tt;
  string = λ t h p v. ok tt;
  window = λ t h p v. ok tt;
  finalized = λ t h. ok tt;
  freed = λ t h. err (errno 6);
  cipher = λ t h x f. ok (1 ∷ x);
  plain = λ t h x f. ok x;
}

-- The key is there.
abbrev opened : Environment
opened = record environment { key = λ t h n. ok (100 + length t) }

abbrev window : Trace → ℕ
window t = 7

abbrev names : Trace → Bytes → Result Bytes
names t l = ok (codes "S-1//")

abbrev passport_key : PassportKey
passport_key = record { key_name = codes "k"; hwnd = 0 }

ensure_winhello_passport_key_settles_example :
    let t' =
      (ensure_winhello_passport_key
        (traced environment)
        (look_up environment window names)
        (ask_window environment window names)
        (codes "v1")
        0
        []).1 in
    opens 100 t' + frees 100 [] ≡ frees 100 t' + opens 100 []
ensure_winhello_passport_key_settles_example =
    ensure_winhello_passport_key_settles environment window names (codes "v1") 0 [] 100

operations_settle_example :
    let t₁ =
      (wrap_key
        (traced opened)
        (look_up opened window names)
        (ask_window opened window names)
        passport_key
        (5 ∷ [])
        []).1 in
    let t₂ =
      (unwrap_key_with_flags
        (traced opened)
        (look_up opened window names)
        (ask_window opened window names)
        passport_key
        (5 ∷ [])
        (codes "context")
        0
        []).1 in
    (opens 100 t₁ + frees 100 [] ≡ frees 100 t₁ + opens 100 [])
    × (opens 100 t₂ + frees 100 [] ≡ frees 100 t₂ + opens 100 [])
operations_settle_example =
    operations_settle opened window names passport_key (5 ∷ []) (5 ∷ []) (codes "context") 0 [] 100

unwrap_key_with_flags-IsGuarded_example :
    IsGuarded
      (unwrap_key_with_flags
        (traced opened)
        (look_up opened window names)
        (ask_window opened window names)
        passport_key
        (5 ∷ [])
        (codes "context")
        0
        []).1
unwrap_key_with_flags-IsGuarded_example =
    unwrap_key_with_flags-IsGuarded opened window names passport_key (5 ∷ []) (codes "context") 0 []
      tt
