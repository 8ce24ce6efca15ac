-- ===== src/Errors.antt =====
-- Error values of the whole program: the package-level `errors.New` values, `syscall.Errno`, the
-- wrappers that `fmt.Errorf` and `errors.Join` build, and `errors.Is`. A text is kept by its
-- format; the values that are printed into it are not.
use keyring.Prelude.{ℕ, String, Bool, true, false, ◌||◌, List, [], ◌∷◌, ite, ◌==◌, nat_eq}

pub data Sentinel : Type 0 where
  -- keyring.go, secretservice.go
  err_no_avail_impl err_key_not_found err_metadata_needs_credentials : Sentinel
  err_metadata_not_supported err_collection_not_found : Sentinel
  -- opcommon.go, opconnect.go, opsrvaccount.go, opdesktop.go
  err_env_unset_or_empty op_err_client op_err_item_multiple op_err_item_title_duplicate : Sentinel
  op_err_keyring op_connect_err_keyring op_srv_account_err_client : Sentinel
  op_srv_account_err_keyring op_desktop_err_client op_desktop_err_keyring : Sentinel
  -- winhello/backend.go, winhello/envelope.go
  winhello_err_key_not_found err_envelope_version err_envelope_provider : Sentinel
  err_envelope_key_name err_envelope_content_alg err_envelope_wrap_alg : Sentinel
  err_envelope_nonce err_envelope_wrapped_cek err_envelope_ciphertext err_envelope_aad : Sentinel
  -- winhello/crypto.go
  err_wrap_key err_unwrap_key err_encrypt err_decrypt err_random err_aad_mismatch : Sentinel
  err_key_name_mismatch err_key_wrapper err_missing_aad : Sentinel
  -- winhello/passport.go, winhello/wrap.go, winhello/passport_name.go
  err_passport_key_not_found err_passport_key_required err_passport_key_name_required : Sentinel
  err_invalid_cek_size err_passport_logical_name err_passport_current_user : Sentinel
  -- winhello/ncrypt.go
  err_ncrypt_empty_input : Sentinel

unfoldable pub Sentinel-discrete : Discrete Sentinel
Sentinel-discrete = hlevel

pub data Error : Type 0 where
  sentinel : Sentinel → Error
  errno : ℕ → Error
  -- an error value of code outside the program, which is none of the above
  failure : ℕ → Error
  -- `errors.New` inside a function, and `fmt.Errorf` with no `%w`
  message : String → Error
  -- `fmt.Errorf` with one `%w`, and with two
  wrapf : String → Error → Error
  wrapf_both : String → Error → Error → Error
  -- `errors.Join`
  join_end : Error
  joined : Error → Error → Error

pub join : List Error → Error
join [] = join_end
join (e ∷ es) = joined e (join es)

-- `errors.Is(err, target)` at a sentinel.
unfoldable pub is : Error → Sentinel → Bool
unfolding Sentinel-discrete
is (sentinel s) t = ite (Sentinel-discrete s t) true false
is (errno n) t = false
is (failure n) t = false
is (message m) t = false
is (wrapf m e) t = is e t
is (wrapf_both m e f) t = is e t || is f t
is join_end t = false
is (joined e f) t = is e t || is f t

-- `errors.Is(err, syscall.Errno(n))`.
unfoldable pub is_errno : Error → ℕ → Bool
is_errno (sentinel s) n = false
is_errno (errno m) n = m == n
is_errno (failure k) n = false
is_errno (message m) n = false
is_errno (wrapf m e) n = is_errno e n
is_errno (wrapf_both m e f) n = is_errno e n || is_errno f n
is_errno join_end n = false
is_errno (joined e f) n = is_errno e n || is_errno f n

-- `err == syscall.Errno(n)`, which does not look into a wrapper.
unfoldable pub eq_errno : Error → ℕ → Bool
eq_errno (errno m) n = m == n
eq_errno e n = false

-- `err == target` at a sentinel.
unfoldable pub eq_sentinel : Error → Sentinel → Bool
unfolding Sentinel-discrete
eq_sentinel (sentinel s) t = ite (Sentinel-discrete s t) true false
eq_sentinel e t = false
