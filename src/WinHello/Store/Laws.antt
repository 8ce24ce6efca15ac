-- ===== src/WinHello/Store/Laws.antt =====
-- The store of envelopes (winhello/store.go) over a credential manager.
use keyring.Prelude.{
  ◌≡◌, ◌≢◌, refl, Bool, true, Bytes, codes, Option, none, some, List, [], ◌++◌, arith, contains,
  list_eq, nat_eq, is_some, append_assoc, append-nil, not, ◌&&◌, sym, ◌∙◌, if◌then◌else◌,
}
use keyring.Prelude.Sort.{IsSorted, sort_strings, contains-sort_strings, sort_strings-IsSorted}
use keyring.Errors.{Error, sentinel, winhello_err_key_not_found, is_errno}
use keyring.Exec.{Result, ok, err}
use keyring.Contract.{accepted}
use keyring.Credentials.{Credentials, IsManager, same_name}
use keyring.WinCred.{credential_name, names_under}
use keyring.WinCred.Laws.{contains-names_under}
use keyring.WinHello.Store.{store_credential_name, read, write, delete, store_keys}

store_credential_name-append :
    (service key : Bytes)
    → store_credential_name service key ≡ store_credential_name service [] ++ key
unfolding store_credential_name
store_credential_name-append service key = simp (append_assoc, append-nil)

-- Two keys whose envelopes have names that differ at most in case.
abbrev pub same_key : (Bytes → Bytes) → Bytes → Bytes → Bytes → Bool
same_key fold service key j =
    same_name fold (store_credential_name service key) (store_credential_name service j)

-- A plain credential under the default prefix never has the name of an envelope.
store_credential_name_apart :
    (name service i j : Bytes)
    → credential_name (record { name = name; prefix = codes "keyring" }) i
      ≢ store_credential_name service j
unfolding credential_name store_credential_name
store_credential_name_apart name service i j h = ground arith

abbrev pub stored : Option Bytes → Result Bytes
stored none = err (sentinel winhello_err_key_not_found)
stored (some b) = ok b

module _ {W : Type 0} (api : Credentials W) (blob : W → Bytes → Option Bytes)
    (refused : Bytes → Option Error) {fold : Bytes → Bytes}
    (manager : (w : W) → IsManager api fold blob refused w) (service : Bytes) where
  -- The envelope under a key.
  abbrev pub envelope_at : W → Bytes → Option Bytes
  envelope_at w key = blob w (store_credential_name service key)

  pub read_result : (w : W) (key : Bytes) → (read api service key w).0 ≡ stored (envelope_at w key)
  unfolding read is_errno
  read_result w key = ground (arith, (manager w).get_result (store_credential_name service key))

  pub envelope_at-read :
      (w : W) (key j : Bytes) → envelope_at (read api service key w).1 j ≡ envelope_at w j
  unfolding read
  envelope_at-read w key j = (manager w).get_blob (store_credential_name service key) _

  pub write_result : (w : W) (key b : Bytes) → (write api service key b w).0 ≡ accepted (refused b)
  unfolding write
  write_result w key b = (manager w).write_result (store_credential_name service key) b

  pub envelope_at-write :
      (w : W) (key b j : Bytes)
      → envelope_at (write api service key b w).1 j ≡ (
          if not (is_some (refused b)) && same_key fold service key j
          then some b
          else envelope_at w j)
  unfolding write
  envelope_at-write w key b j = ground (
    arith,
    (manager w).write_blob (store_credential_name service key) b (store_credential_name service j),
  )

  pub delete_result :
      (w : W) (key : Bytes)
      → (delete api service key w).0
        ≡ (if is_some (envelope_at w key) then ok tt else err (sentinel winhello_err_key_not_found))
  unfolding delete is_errno
  delete_result w key = ground (
    arith,
    (manager w).get_result (store_credential_name service key),
    (manager w).get_blob (store_credential_name service key) (store_credential_name service key),
    (manager (api.get_generic_credential (store_credential_name service key) w).1).delete_result
        (store_credential_name service key),
  )

  pub envelope_at-delete :
      (w : W) (key j : Bytes)
      → envelope_at (delete api service key w).1 j
        ≡ (if same_key fold service key j then none else envelope_at w j)
  unfolding delete is_errno
  envelope_at-delete w key j = ground (
    arith,
    (manager w).get_result (store_credential_name service key),
    (manager w).get_blob (store_credential_name service key) (store_credential_name service j),
    (manager (api.get_generic_credential (store_credential_name service key) w).1).delete_blob
        (store_credential_name service key) (store_credential_name service j),
    (manager w).same_blob (store_credential_name service key) (store_credential_name service j),
  )

  listed_keys : W → List Bytes
  listed_keys w = sort_strings (names_under (store_credential_name service []) (manager w).names)

  listed-name :
      (w : W) (j : Bytes)
      → contains (listed_keys w) j ≡ contains (manager w).names (store_credential_name service j)
  unfolding listed_keys
  listed-name w j =
      rw (contains-sort_strings, contains-names_under, ← store_credential_name-append service j)
        refl

  pub store_keys_result :
      (w : W)
      → (ks : List Bytes) × ((store_keys api service w).0 ≡ ok ks)
        × IsSorted ks
        × ((j : Bytes) → contains ks j ≡ true → is_some (envelope_at w j) ≡ true)
  unfolding store_keys listed_keys
  store_keys_result w = (
    listed_keys w,
    ground (arith, (manager w).list_result),
    sort_strings-IsSorted _,
    λ j h. (manager w).list_sound (store_credential_name service j) (sym (listed-name w j) ∙ h),
  )

  pub envelope_at-store_keys :
      (w : W) (j : Bytes) → envelope_at (store_keys api service w).1 j ≡ envelope_at w j
  unfolding store_keys
  envelope_at-store_keys w j =
      ground
        (arith, (manager w).list_result, (manager w).list_blob (store_credential_name service j))
