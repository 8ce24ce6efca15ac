-- ===== src/File.antt =====
-- file.go: each item in an encrypted file of a directory.
pub mod System
pub mod Tilde
pub mod Assumed
pub mod RoundTrip
use keyring.Prelude.{
  Bytes, codes, Bool, false, not, Option, none, some, List, [], ◌++◌, map, is_empty, if◌then◌else◌,
}
use keyring.Errors.{Error, message, sentinel, err_key_not_found}
use keyring.Exec.{Exec, pure, raise, lift, on_error, ◌>>=◌, ◌>>◌}
use keyring.Exec.Object.{Object, outside, get_fields, put_fields}
use keyring.Api.{Item, Metadata, Keyring, Config, ItemCodec, Prompt}
use keyring.Contract.{accepted}
use keyring.File.System.{FileInfo, Codecs}
use keyring.File.System.{System as FileSystem}
use keyring.File.Tilde.{expand_tilde}

-- The fields that no method changes; the password, empty until it was asked for, stands beside the
-- world. The password function may be nil.
pub record FileKeyring (W : Type 0) : Type 0 where
  pub dir : Bytes
  pub password_func : Option (Prompt W)

pub new_file_keyring : {W : Type 0} → Config W → FileKeyring W
new_file_keyring cfg = record { dir = cfg.file_dir; password_func = cfg.file_password_func }

module _ {W : Type 0} (system : FileSystem W) (codecs : Codecs W) (json : ItemCodec)
    (k : FileKeyring W) where
  abbrev State : Type 0
  State = Object Bytes W

  unfoldable pub filename_escape : Bytes → Bytes
  filename_escape s = codecs.percent_encode s (codes "/")

  -- `err != nil && stat != nil && !stat.IsDir()`.
  is_other_file : Option FileInfo → Option Error → Bool
  is_other_file (some info) (some e) = not info.is_dir
  is_other_file stat error = false

  missing : Option Error → Bool
  missing none = false
  missing (some e) = system.is_not_exist e

  -- What becomes of the error of `os.Stat`.
  directory_made : Bytes → Option FileInfo → Option Error → Exec W Unit
  unfolding missing is_other_file
  directory_made dir stat error =
      if missing error
      then system.mkdir_all dir 448
      else if is_other_file stat error
      then raise (message "%s is a file, not a directory")
      else lift (accepted error)

  pub resolve_dir : Exec W Bytes
  unfolding directory_made
  resolve_dir =
      if is_empty k.dir then raise (message "no directory provided for file keyring") else (do
        dir ← expand_tilde system k.dir
        (λ w.
            let ((stat, error), w₁) = system.stat dir w in
            (do directory_made dir stat error; pure dir) w₁))

  ask : Option (Prompt W) → Bytes → Exec W Bytes
  ask none prompt = raise (message "invalid memory address or nil pointer dereference")
  ask (some func) prompt = func prompt

  pub unlock : Exec State Unit
  unfolding ask
  unlock = do
    dir ← outside resolve_dir
    password ← get_fields
    (if is_empty password
        then (do
          pwd ←
              outside
                (ask k.password_func (codes "Enter passphrase to unlock " ++ system.quoted dir))
          put_fields pwd)
        else pure tt)

  pub filename : Bytes → Exec W Bytes
  unfolding filename_escape
  filename key = do dir ← resolve_dir; pure (system.join dir (filename_escape key))

  -- `if os.IsNotExist(err) { return …, ErrKeyNotFound }`.
  pub not_found : Error → Error
  not_found e = if system.is_not_exist e then sentinel err_key_not_found else e

  pub get : Bytes → Exec State Item
  unfolding not_found
  get key = do
    name ← outside (filename key)
    bytes ← on_error not_found (outside (system.read_file name))
    unlock
    password ← get_fields
    payload ← lift (codecs.jose_decode bytes password)
    lift (json.decode payload)

  metadata_of : Option FileInfo → Option Error → Exec State Metadata
  unfolding not_found
  metadata_of stat (some e) = raise (not_found e)
  metadata_of none none = raise (message "invalid memory address or nil pointer dereference")
  metadata_of (some info) none = pure (record { item = none; modification_time = info.mod_time })

  pub get_metadata : Bytes → Exec State Metadata
  unfolding metadata_of
  get_metadata key = do
    name ← outside (filename key)
    (λ o.
        let ((stat, error), w₁) = system.stat name o.world in
        metadata_of stat error (record o { world = w₁ }))

  pub set : Item → Exec State Unit
  set i = do
    bytes ← lift (json.encode i)
    unlock
    password ← get_fields
    token ← (λ o.
        let (created, w₁) = system.now_text o.world in
        outside (codecs.jose_encrypt bytes password created) (record o { world = w₁ }))
    name ← outside (filename i.key)
    outside (system.write_file name token 384)

  pub remove : Bytes → Exec State Unit
  remove key = do name ← outside (filename key); outside (system.remove_file name)

  pub keys : Exec State (List Bytes)
  keys = do
    dir ← outside resolve_dir
    (λ o.
        let ((files, error), w₁) = system.read_dir dir o.world in
        pure (map codecs.percent_decode files) (record o { world = w₁ }))

  abbrev pub file_ring : Keyring State
  file_ring = record {
    get = get;
    get_metadata = get_metadata;
    set = set;
    remove = remove;
    keys = keys;
  }
