-- ===== src/WinHello/Passport.antt =====
-- winhello/passport.go: the Passport key, opened or created.
pub mod Wrap
pub mod Handles
pub mod Gesture
pub mod Calls
pub mod Operations
pub mod Leaks
use keyring.Prelude.{ℕ, Bytes, codes, not, ◌==◌, nat_eq, if◌then◌else◌}
use keyring.Errors.{sentinel, wrapf, is, err_passport_key_not_found}
use keyring.Exec.{Exec, Result, ok, err, pure, raise, attempt, on_error, ◌>>=◌, ◌>>◌}
use keyring.WinHello.Envelope.{provider_passport_ksp}
use keyring.WinHello.Window.{Ask}
use keyring.WinHello.NCrypt.{
  Handle, NCrypt, rsa_algorithm, length_property, key_usage_property, ngc_cache_type_property,
  ngc_cache_type_legacy_property, use_context_property, window_handle_property, allow_decrypt_flag,
  ngc_cache_type_auth_mandatory, is_key_not_found,
}

pub record PassportKey : Type 0 where
  pub key_name : Bytes
  pub hwnd : ℕ

abbrev pub passport_key_bits : ℕ
passport_key_bits = 2048

abbrev pub passport_create_context : Bytes
passport_create_context = codes "Create keyring winhello key"

module _ {W : Type 0} where
  -- `_ = m()`.
  abbrev pub ignore : {A : Type 0} → Exec W A → Exec W Unit
  ignore m w = (ok tt, (m w).1)

  -- `defer func() { _ = last() }()` around the rest of a function.
  abbrev pub finally : {A : Type 0} → Exec W Unit → Exec W A → Exec W A
  finally last body w = let (r, w') = body w in (r, (last w').1)

module _ {W : Type 0} (n : NCrypt W) (key_name_of : Bytes → Exec W Bytes)
    (parent_hwnd : Ask W ℕ) where
  set_handle : Handle → ℕ → Exec W Unit
  set_handle handle hwnd =
      if hwnd == 0
      then pure tt
      else on_error (wrapf "set Passport window handle: %w")
          (n.set_handle_property handle window_handle_property hwnd)

  pub set_window_handle_if_present : Handle → ℕ → Exec W Unit
  unfolding set_handle
  set_window_handle_if_present handle hwnd w =
      let (parent, w₁) = parent_hwnd w in
      if hwnd == 0 then set_handle handle parent w₁ else set_handle handle hwnd w

  -- The provider's handle; the key name is found before it is opened.
  pub open_passport_provider : Bytes → ℕ → Exec W (Handle × Bytes)
  open_passport_provider logical_name hwnd = do
    key_name ← key_name_of logical_name
    provider ←
        on_error (wrapf "open Passport provider: %w")
          (n.open_storage_provider provider_passport_ksp)
    ignore (set_window_handle_if_present provider hwnd)
    pure (provider, key_name)

  probe_passport_key : ℕ → Bytes → Result Handle → Exec W PassportKey
  probe_passport_key hwnd key_name (err e) =
      if is_key_not_found e
      then raise (sentinel err_passport_key_not_found)
      else raise (wrapf "open Passport key: %w" e)
  probe_passport_key hwnd key_name (ok key_handle) = do
    on_error (wrapf "free Passport key: %w") (n.free_object key_handle)
    pure (record { key_name = key_name; hwnd = hwnd })

  with_provider : ℕ → Handle × Bytes → Exec W PassportKey
  with_provider hwnd (provider, key_name) =
      finally (n.free_object provider)
        (do r ← attempt (n.open_key provider key_name); probe_passport_key hwnd key_name r)

  pub open_winhello_passport_key : Bytes → ℕ → Exec W PassportKey
  open_winhello_passport_key logical_name hwnd = do
    p ← open_passport_provider logical_name hwnd
    with_provider hwnd p

  set_legacy_cache_type : Handle → Result (Unit {0}) → Exec W Unit
  set_legacy_cache_type key (ok u) = pure tt
  set_legacy_cache_type key (err e) =
      on_error (λ legacy. wrapf "set %s: %w; fallback %s: %v" e)
        (n.set_uint32_property key ngc_cache_type_legacy_property ngc_cache_type_auth_mandatory)

  pub set_passport_ngc_cache_type : Handle → Exec W Unit
  set_passport_ngc_cache_type key = do
    r ← attempt (n.set_uint32_property key ngc_cache_type_property ngc_cache_type_auth_mandatory)
    set_legacy_cache_type key r

  pub initialize_passport_key : Handle → ℕ → Exec W Unit
  initialize_passport_key key hwnd = do
    ignore (set_window_handle_if_present key hwnd)
    n.set_uint32_property key length_property passport_key_bits
    n.set_uint32_property key key_usage_property allow_decrypt_flag
    set_passport_ngc_cache_type key
    n.set_string_property key use_context_property passport_create_context

  -- The parts of the creation, each with the handles that it is to free.
  provider_freed : PassportKey → Result (Unit {0}) → Exec W PassportKey
  provider_freed key (err e) = raise (wrapf "free Passport provider after create: %w" e)
  provider_freed key (ok u) = pure key

  key_freed : PassportKey → Handle → Result (Unit {0}) → Exec W PassportKey
  key_freed key provider (err e) = do
    ignore (n.free_object provider)
    raise (wrapf "free Passport key after finalize: %w" e)
  key_freed key provider (ok u) = do r ← attempt (n.free_object provider); provider_freed key r

  key_finalized : PassportKey → Handle → Handle → Result (Unit {0}) → Exec W PassportKey
  key_finalized key provider created_key (err e) = do
    ignore (n.free_object created_key)
    ignore (n.free_object provider)
    raise (wrapf "finalize Passport key: %w" e)
  key_finalized key provider created_key (ok u) = do
    r ← attempt (n.free_object created_key)
    key_freed key provider r

  key_initialized : PassportKey → Handle → Handle → Result (Unit {0}) → Exec W PassportKey
  key_initialized key provider created_key (err e) = do
    ignore (n.free_object created_key)
    ignore (n.free_object provider)
    raise (wrapf "initialize Passport key: %w" e)
  key_initialized key provider created_key (ok u) = do
    r ← attempt (n.finalize_key created_key)
    key_finalized key provider created_key r

  key_created : PassportKey → Handle → Result Handle → Exec W PassportKey
  key_created key provider (err e) = do
    ignore (n.free_object provider)
    raise (wrapf "create Passport key: %w" e)
  key_created key provider (ok created_key) = do
    r ← attempt (initialize_passport_key created_key key.hwnd)
    key_initialized key provider created_key r

  provider_for_create : ℕ → Handle × Bytes → Exec W PassportKey
  provider_for_create hwnd (provider, key_name) = do
    r ← attempt (n.create_persisted_key provider rsa_algorithm key_name)
    key_created (record { key_name = key_name; hwnd = hwnd }) provider r

  create_winhello_passport_key : Bytes → ℕ → Exec W PassportKey
  create_winhello_passport_key logical_name hwnd = do
    p ← open_passport_provider logical_name hwnd
    provider_for_create hwnd p

  or_create : Bytes → ℕ → Result PassportKey → Exec W PassportKey
  or_create logical_name hwnd (ok key) = pure key
  or_create logical_name hwnd (err e) =
      if not (is e err_passport_key_not_found)
      then raise e
      else create_winhello_passport_key logical_name hwnd

  pub ensure_winhello_passport_key : Bytes → ℕ → Exec W PassportKey
  unfolding or_create create_winhello_passport_key provider_for_create key_created key_initialized
      key_finalized key_freed provider_freed
  ensure_winhello_passport_key logical_name hwnd = do
    r ← attempt (open_winhello_passport_key logical_name hwnd)
    or_create logical_name hwnd r
