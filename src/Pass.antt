-- ===== src/Pass.antt =====
-- pass.go and passage.go: items in a password store, kept by one of two programs that work alike.
pub mod Commands
pub mod Listing
pub mod Store
use keyring.Prelude.{
  ℕ, Bytes, codes, Bool, true, false, not, ◌&&◌, Option, none, some, List, [], ◌∷◌, ◌++◌, length,
  is_empty, or_default, trim_prefix, first_bytes, ltb, ◌==◌, list_eq, nat_eq, if◌then◌else◌,
}
use Prim.Native.Nat.{◌-◌}
use keyring.Errors.{Error, message, sentinel, err_key_not_found}
use keyring.Exec.{Exec, Result, ok, err, pure, raise, lift, on_error, ◌>>=◌, ◌>>◌}
use keyring.Exec.Pure.{◌>>=◌ as ◌>>=ᵣ◌}
use keyring.Api.{Item, Metadata, Keyring, Config, ItemCodec}
use keyring.File.System.{FileInfo}
use keyring.File.System.{System as FileSystem}
use keyring.File.Tilde.{expand_tilde}
use keyring.Pass.Commands.{Command, Visit, visited, failed, Shell}

pub record PassKeyring : Type 0 where
  pub dir : Bytes
  pub passcmd : Bytes
  pub prefix : Bytes

-- Where the two programs differ: the command, the variable for the directory, the directory in the
-- home directory, and the extension of an item's file.
pub record Flavor : Type 0 where
  pub command : Bytes
  pub variable : Bytes
  pub home_store : Bytes
  pub extension : Bytes

abbrev pub pass : Flavor
pass = record {
  command = codes "pass";
  variable = codes "PASSWORD_STORE_DIR";
  home_store = codes ".password-store";
  extension = codes ".gpg";
}

abbrev pub passage : Flavor
passage = record {
  command = codes "passage";
  variable = codes "PASSAGE_DIR";
  home_store = codes ".passage/store";
  extension = codes ".age";
}

-- `name[0]`, which panics on the empty name, and `name[1:]` if that is a separator.
pub without_separator : ℕ → Bytes → Result Bytes
without_separator separator [] = err (message "index out of range")
without_separator separator (c ∷ name) = if c == separator then ok name else ok (c ∷ name)

-- `name[:len(name)-4]`, which panics on a shorter name.
pub without_extension : Bytes → Result Bytes
without_extension name =
    if ltb (length name) 4
    then err (message "slice bounds out of range")
    else ok (first_bytes (length name - 4) name)

module _ {W : Type 0} (system : FileSystem W) (shell : Shell W) (flavor : Flavor) where
  home_store_dir : Exec W Bytes
  home_store_dir = do
    home ← system.user_home_dir
    pure (shell.join_all (home ∷ flavor.home_store ∷ []))

  env_or_home : Option Bytes → Exec W Bytes
  unfolding home_store_dir
  env_or_home (some dir) = pure dir
  env_or_home none = home_store_dir

  store_dir : Bytes → Exec W Bytes
  unfolding env_or_home
  store_dir dir =
      if is_empty dir
      then (λ w. let (from_env, w₁) = shell.lookup_env flavor.variable w in env_or_home from_env w₁)
      else pure dir

  -- The opener.
  pub open_store : Config W → Exec W PassKeyring
  unfolding store_dir
  open_store cfg = do
    given ← store_dir cfg.pass_dir
    dir ← expand_tilde system given
    on_error (λ e. message "the pass program is not available")
        (shell.look_path (or_default cfg.pass_cmd flavor.command))
    pure (record {
      dir = dir;
      passcmd = or_default cfg.pass_cmd flavor.command;
      prefix = cfg.pass_prefix;
    })

  module _ (json : ItemCodec) (k : PassKeyring) where
    -- The method `pass`, with what the caller sets as standard input.
    unfoldable pub pass_command : List Bytes → Option Bytes → Command
    pass_command arguments stdin = record {
      program = k.passcmd;
      arguments = arguments;
      environment = if is_empty k.dir then none else some (flavor.variable ++ (codes "=" ++ k.dir));
      stdin = stdin;
    }

    is_there : Option FileInfo × Option Error → Bool
    is_there (info, none) = true
    is_there (info, some e) = false

    pub item_exists : Bytes → Exec W Bool
    unfolding is_there
    item_exists key w =
        let (answer, w₁) =
          system.stat (shell.join_all (k.dir ∷ k.prefix ∷ (key ++ flavor.extension) ∷ [])) w in
        (ok (is_there answer), w₁)

    abbrev item_name : Bytes → Bytes
    item_name key = shell.join_all (k.prefix ∷ key ∷ [])

    pub get : Bytes → Exec W Item
    unfolding item_exists pass_command
    get key = do
      exists ← item_exists key
      (if not exists then raise (sentinel err_key_not_found) else (do
        output ← shell.output (pass_command (codes "show" ∷ item_name key ∷ []) none)
        lift (json.decode output)))

    pub get_metadata : Bytes → Exec W Metadata
    get_metadata key = pure (record { item = none; modification_time = 0 })

    pub set : Item → Exec W Unit
    unfolding pass_command
    set i = do
      bytes ← lift (json.encode i)
      shell.run (
          pass_command (codes "insert" ∷ codes "-m" ∷ codes "-f" ∷ item_name i.key ∷ [])
            (some bytes))

    pub remove : Bytes → Exec W Unit
    unfolding item_exists pass_command
    remove key = do
      exists ← item_exists key
      (if not exists
          then raise (sentinel err_key_not_found)
          else shell.run (pass_command (codes "rm" ∷ codes "-f" ∷ item_name key ∷ []) none))

    key_of_path : Bytes → Bytes → Result Bytes
    unfolding without_separator without_extension
    key_of_path path p =
        without_separator system.separator (trim_prefix p path) >>=ᵣ without_extension

    -- The walk over the files, the keys behind those that were found before.
    pub keys_of_visits : Bytes → List Bytes → List Visit → Result (List Bytes)
    unfolding key_of_path
    keys_of_visits path found [] = ok found
    keys_of_visits path found (failed e ∷ visits) = err e
    keys_of_visits path found (visited p is_dir ∷ visits) =
        if not is_dir && shell.ext p == flavor.extension
        then (key_of_path path p >>=ᵣ λ key. keys_of_visits path (found ++ key ∷ []) visits)
        else keys_of_visits path found visits

    walked : Bytes → Exec W (List Bytes)
    unfolding keys_of_visits
    walked path w = let (visits, w₁) = shell.walk path w in (keys_of_visits path [] visits, w₁)

    keys_in : Bytes → Option FileInfo × Option Error → Exec W (List Bytes)
    unfolding walked
    keys_in path (info, some e) = if system.is_not_exist e then pure [] else raise e
    keys_in path (none, none) = raise (message "invalid memory address or nil pointer dereference")
    keys_in path (some info, none) =
        if not info.is_dir then raise (message "%s is not a directory") else walked path

    pub keys : Exec W (List Bytes)
    unfolding keys_in
    keys w =
        let path = shell.join_all (k.dir ∷ k.prefix ∷ []) in
        let (answer, w₁) = system.stat path w in keys_in path answer w₁

    abbrev pub store_ring : Keyring W
    store_ring = record {
      get = get;
      get_metadata = get_metadata;
      set = set;
      remove = remove;
      keys = keys;
    }

module _ {W : Type 0} (system : FileSystem W) (shell : Shell W) where
  pub open_pass : Config W → Exec W PassKeyring
  open_pass = open_store system shell pass

  pub open_passage : Config W → Exec W PassKeyring
  open_passage = open_store system shell passage

  abbrev pub pass_ring : ItemCodec → PassKeyring → Keyring W
  pass_ring = store_ring system shell pass

  abbrev pub passage_ring : ItemCodec → PassKeyring → Keyring W
  passage_ring = store_ring system shell passage
