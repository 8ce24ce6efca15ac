-- ===== src/Credentials.antt =====
-- The Windows Credential Manager behind github.com/danieljoos/wincred, which the program only
-- calls: an interface, and what its documentation says of generic credentials.
use keyring.Prelude.{
  ℕ, ◌≡◌, Bytes, Option, none, some, List, contains, ◌==◌, list_eq, nat_eq, is_some, not, ◌&&◌,
  Bool, true, if◌then◌else◌,
}
use keyring.Errors.{Error, errno}
use keyring.Exec.{Exec, Result, ok, err}
use keyring.Contract.{accepted}

pub record Credentials (W : Type 0) : Type 0 where
  -- `GetGenericCredential(target)`, down to the credential's blob
  pub get_generic_credential : Bytes → Exec W Bytes
  -- `NewGenericCredential(target)`, its blob set, and `Write`
  pub write : Bytes → Bytes → Exec W Unit
  -- `Delete` of the credential with that target
  pub delete : Bytes → Exec W Unit
  -- `List`, down to the target names
  pub list : Exec W (List Bytes)

-- ERROR_NOT_FOUND, as `syscall.Errno(1168)`.
abbrev pub element_not_found : ℕ
element_not_found = 1168

abbrev pub read_blob : Option Bytes → Result Bytes
read_blob none = err (errno element_not_found)
read_blob (some b) = ok b

-- Whether two names differ at most in case: `fold` makes one text of all such names.
abbrev pub same_name : (Bytes → Bytes) → Bytes → Bytes → Bool
same_name fold t u = fold t == fold u

-- In the state `w` the manager keeps one blob for each target name, `blob w`, whose case it does not
-- look at, and lists each name as it was spelled once. It may turn a blob down, for its size for
-- instance.
pub record IsManager {W : Type 0} (api : Credentials W) (fold : Bytes → Bytes)
    (blob : W → Bytes → Option Bytes) (refused : Bytes → Option Error) (w : W) : Type 0 where
  pub same_blob : (t u : Bytes) → same_name fold t u ≡ true → blob w u ≡ blob w t
  pub get_result : (t : Bytes) → (api.get_generic_credential t w).0 ≡ read_blob (blob w t)
  pub get_blob : (t u : Bytes) → blob (api.get_generic_credential t w).1 u ≡ blob w u
  pub write_result : (t b : Bytes) → (api.write t b w).0 ≡ accepted (refused b)
  pub write_blob :
      (t b u : Bytes)
      → blob (api.write t b w).1 u
        ≡ (if not (is_some (refused b)) && same_name fold t u then some b else blob w u)
  pub delete_result :
      (t : Bytes)
      → (api.delete t w).0 ≡ (if is_some (blob w t) then ok tt else err (errno element_not_found))
  pub delete_blob :
      (t u : Bytes) → blob (api.delete t w).1 u ≡ (if same_name fold t u then none else blob w u)
  pub names : List Bytes
  pub list_result : (api.list w).0 ≡ ok names
  pub list_sound : (t : Bytes) → contains names t ≡ true → is_some (blob w t) ≡ true
  pub list_complete :
      (t : Bytes)
      → is_some (blob w t) ≡ true
      → (u : Bytes) × (contains names u ≡ true) × (same_name fold t u ≡ true)
  pub list_blob : (u : Bytes) → blob (api.list w).1 u ≡ blob w u
