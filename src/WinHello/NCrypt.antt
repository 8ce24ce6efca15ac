-- ===== src/WinHello/NCrypt.antt =====
-- The calls that winhello/ncrypt.go makes of ncrypt.dll, behind the function variables of
-- passport.go and wrap.go, and the constants and tests of winhello/ncrypt_error.go.
pub mod Trace
pub mod System
use keyring.Prelude.{ℕ, Bytes, codes, Bool, ◌||◌, ◌==◌, nat_eq, if◌then◌else◌}
use keyring.Errors.{Error, errno, wrapf, is_errno}
use keyring.Exec.{Exec, Result, ok, err}

abbrev pub Handle : Type 0
Handle = ℕ

abbrev pub rsa_algorithm : Bytes
rsa_algorithm = codes "RSA"

abbrev pub length_property : Bytes
length_property = codes "Length"

abbrev pub key_usage_property : Bytes
key_usage_property = codes "Key Usage"

abbrev pub ngc_cache_type_property : Bytes
ngc_cache_type_property = codes "NgcCacheType"

abbrev pub ngc_cache_type_legacy_property : Bytes
ngc_cache_type_legacy_property = codes "NgcCacheTypeProperty"

abbrev pub pin_cache_is_gesture_required_property : Bytes
pin_cache_is_gesture_required_property = codes "PinCacheIsGestureRequired"

abbrev pub use_context_property : Bytes
use_context_property = codes "Use Context"

abbrev pub window_handle_property : Bytes
window_handle_property = codes "HWND Handle"

abbrev pub pad_pkcs1_flag : ℕ
pad_pkcs1_flag = 2

abbrev pub allow_decrypt_flag : ℕ
allow_decrypt_flag = 1

abbrev pub ngc_cache_type_auth_mandatory : ℕ
ngc_cache_type_auth_mandatory = 1

abbrev pub err_bad_keyset : ℕ
err_bad_keyset = 0x80090016

abbrev pub err_no_key : ℕ
err_no_key = 0x8009000d

abbrev pub err_not_found : ℕ
err_not_found = 0x80090011

abbrev pub err_not_supported : ℕ
err_not_supported = 0x80090029

abbrev pub err_device_not_ready : ℕ
err_device_not_ready = 0x80090030

abbrev err_user_cancelled : ℕ
err_user_cancelled = 0x80090036

abbrev err_invalid_parameter : ℕ
err_invalid_parameter = 0x80090027

abbrev err_win32_invalid_parameter : ℕ
err_win32_invalid_parameter = 87

is_invalid_parameter : Error → Bool
is_invalid_parameter e = is_errno e err_invalid_parameter || is_errno e err_win32_invalid_parameter

is_user_cancelled : Error → Bool
is_user_cancelled e = is_errno e err_user_cancelled

unfoldable pub is_key_not_found : Error → Bool
is_key_not_found e = is_errno e err_bad_keyset || is_errno e err_no_key || is_errno e err_not_found

pub is_setup_required : Error → Bool
is_setup_required e = is_errno e err_not_supported || is_errno e err_device_not_ready

-- `winHelloNCryptError`: the status 0 is no error.
pub ncrypt_error : ℕ → Result (Unit {0})
unfolding is_setup_required
ncrypt_error status =
    if status == 0
    then ok tt
    else if is_setup_required (errno status)
    then err (wrapf "%w%s" (errno status))
    else err (errno status)

-- The functions behind the variables, over the state `W` of Windows.
pub record NCrypt (W : Type 0) : Type 0 where
  pub open_storage_provider : Bytes → Exec W Handle
  pub open_key : Handle → Bytes → Exec W Handle
  pub create_persisted_key : Handle → Bytes → Bytes → Exec W Handle
  pub set_uint32_property : Handle → Bytes → ℕ → Exec W Unit
  pub set_string_property : Handle → Bytes → Bytes → Exec W Unit
  pub set_handle_property : Handle → Bytes → ℕ → Exec W Unit
  pub finalize_key : Handle → Exec W Unit
  pub free_object : Handle → Exec W Unit
  pub encrypt : Handle → Bytes → ℕ → Exec W Bytes
  pub decrypt : Handle → Bytes → ℕ → Exec W Bytes
