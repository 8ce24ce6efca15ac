-- ===== src/WinHello/Passport/Wrap.antt =====
-- winhello/wrap.go: what the Passport key wraps and unwraps, and the hooks of the backend.
use Prim.Native.Nat.{bit_or}
use keyring.Prelude.{
  ℕ, Bytes, codes, Option, none, some, not, length, is_empty, or_default, ◌==◌, nat_eq,
  if◌then◌else◌,
}
use keyring.Errors.{
  sentinel, wrapf, err_passport_key_not_found, err_passport_key_required,
  err_passport_key_name_required, err_invalid_cek_size,
}
use keyring.Exec.{Exec, Result, ok, err, pure, raise, attempt, on_error, ◌>>=◌, ◌>>◌}
use keyring.WinHello.Envelope.{provider_passport_ksp}
use keyring.WinHello.Crypto.{KeyWrapper, cek_size}
use keyring.WinHello.Window.{Ask}
use keyring.WinHello.Backend.{Hooks}
use keyring.WinHello.NCrypt.{
  Handle, NCrypt, pin_cache_is_gesture_required_property, use_context_property, pad_pkcs1_flag,
  is_key_not_found,
}
use keyring.WinHello.Passport.{
  PassportKey, ignore, finally, set_window_handle_if_present, open_winhello_passport_key,
  ensure_winhello_passport_key,
}

abbrev pub passport_default_unwrap_context : Bytes
passport_default_unwrap_context = codes "Unlock keyring secret"

module _ {W : Type 0} (n : NCrypt W) (key_name_of : Bytes → Exec W Bytes)
    (parent_hwnd : Ask W ℕ) where
  unfoldable pub opened_operation_key :
      {A : Type 0} → (Handle → Exec W A) → Result Handle → Exec W A
  opened_operation_key run (err e) =
      if is_key_not_found e
      then raise (sentinel err_passport_key_not_found)
      else raise (wrapf "open Passport key: %w" e)
  opened_operation_key run (ok opened_key) = finally (n.free_object opened_key) (run opened_key)

  unfoldable pub provider_for_operation :
      {A : Type 0} → PassportKey → (Handle → Exec W A) → Handle → Exec W A
  provider_for_operation key run provider = finally (n.free_object provider) (do
    ignore (set_window_handle_if_present n key_name_of parent_hwnd provider key.hwnd)
    r ← attempt (n.open_key provider key.key_name)
    opened_operation_key run r)

  -- The receiver may be nil.
  unfoldable pub with_operation_key :
      {A : Type 0} → Option PassportKey → (Handle → Exec W A) → Exec W A
  unfolding provider_for_operation opened_operation_key
  with_operation_key none run = raise (sentinel err_passport_key_required)
  with_operation_key (some key) run =
      if is_empty key.key_name then raise (sentinel err_passport_key_name_required) else do
        provider ←
            on_error (wrapf "open Passport provider: %w")
              (n.open_storage_provider provider_passport_ksp)
        provider_for_operation key run provider

  unfoldable pub prepare_passport_unwrap : Handle → ℕ → Bytes → Exec W Unit
  prepare_passport_unwrap handle hwnd context = do
    ignore (set_window_handle_if_present n key_name_of parent_hwnd handle hwnd)
    n.set_string_property handle use_context_property
        (or_default context passport_default_unwrap_context)
    n.set_uint32_property handle pin_cache_is_gesture_required_property 1

  unfoldable pub run_wrap : PassportKey → Bytes → Handle → Exec W Bytes
  run_wrap key cek handle = do
    ignore (set_window_handle_if_present n key_name_of parent_hwnd handle key.hwnd)
    on_error (wrapf "wrap CEK with Passport key: %w") (n.encrypt handle cek pad_pkcs1_flag)

  unfoldable pub wrap_key : PassportKey → Bytes → Exec W Bytes
  unfolding run_wrap
  wrap_key key cek =
      if not (length cek == cek_size)
      then raise (wrapf "%w: got %d bytes" (sentinel err_invalid_cek_size))
      else with_operation_key (some key) (run_wrap key cek)

  unfoldable pub check_cek : Bytes → Exec W Bytes
  check_cek cek =
      if not (length cek == cek_size)
      then raise (wrapf "%w after unwrap: got %d bytes" (sentinel err_invalid_cek_size))
      else pure cek

  unfoldable pub run_unwrap : PassportKey → Bytes → Bytes → ℕ → Handle → Exec W Bytes
  run_unwrap key wrapped context extra_flags handle = do
    on_error (wrapf "prepare Passport key for unwrap: %w")
        (prepare_passport_unwrap handle key.hwnd context)
    cek ←
        on_error (wrapf "unwrap CEK with Passport key: %w")
          (n.decrypt handle wrapped (bit_or pad_pkcs1_flag extra_flags))
    check_cek cek

  unfoldable pub unwrap_key_with_flags : PassportKey → Bytes → Bytes → ℕ → Exec W Bytes
  unfolding run_unwrap check_cek
  unwrap_key_with_flags key wrapped context extra_flags =
      with_operation_key (some key) (run_unwrap key wrapped context extra_flags)

  pub unwrap_key : PassportKey → Bytes → Bytes → Exec W Bytes
  unwrap_key key wrapped context = unwrap_key_with_flags key wrapped context 0

  pub key_wrapper : PassportKey → KeyWrapper W
  key_wrapper key = record { wrap_key = wrap_key key; unwrap_key = unwrap_key key }

  -- The default values of the function variables in backend.go.
  pub passport_hooks : Hooks W
  passport_hooks = record {
    ensure_passport_key = λ logical_name hwnd. do
      key ← ensure_winhello_passport_key n key_name_of parent_hwnd logical_name hwnd
      pure (key_wrapper key);
    open_passport_key = λ logical_name hwnd. do
      key ← open_winhello_passport_key n key_name_of parent_hwnd logical_name hwnd
      pure (key_wrapper key);
    parent_hwnd = parent_hwnd;
  }
