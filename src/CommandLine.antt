-- ===== src/CommandLine.antt =====
-- cmd/keyring/main.go: the command line tool, from its parsed flags to what it prints.
pub mod SetGet
use keyring.Prelude.{
  Bytes, codes, Bool, false, not, none, some, List, [], ◌∷◌, ◌++◌, is_empty, contains, list_eq,
  nat_eq, if◌then◌else◌,
}
use keyring.Prelude.Int.{pos}
use keyring.Errors.{message}
use keyring.Exec.{Exec, Result, ok, err, pure, lift, ◌>>=◌, ◌>>◌}
use keyring.Api.{Config, BackendType, Keyring, plain_item}
use keyring.Open.{Supported, available_backends, open_keyring}

-- The flags without `-debug`, which only adds lines to the log.
pub record Flags : Type 0 where
  pub service : Bytes
  pub key : Bytes
  pub backend : Bytes
  pub list_backends : Bool
  pub list_keys : Bool
  pub set : Bytes
  pub keychain : Bytes

-- The values of the flags that are not given.
abbrev pub default_flags : Flags
default_flags = record {
  service = codes "example";
  key = codes "example";
  backend = [];
  list_backends = false;
  list_keys = false;
  set = [];
  keychain = codes "login";
}

-- `fmt.Printf("%s\n", line)` for each line.
pub lines : List Bytes → Bytes
lines [] = []
lines (l ∷ ls) = l ++ b'\n' ∷ lines ls

-- The configuration, whose other fields are zero.
unfoldable pub config_of : {W : Type 0} → Flags → List BackendType → Config W
config_of flags allowed = record {
  allowed_backends = some allowed;
  service_name = flags.service;
  keychain_name = flags.keychain;
  keychain_trust_application = false;
  keychain_synchronizable = false;
  keychain_accessible_when_unlocked = false;
  keychain_password_func = none;
  file_password_func = none;
  file_dir = [];
  key_ctl_scope = [];
  key_ctl_perm = 0;
  k_wallet_app_id = [];
  k_wallet_folder = [];
  lib_secret_collection_name = [];
  pass_dir = [];
  pass_cmd = [];
  pass_prefix = [];
  win_cred_prefix = [];
  use_biometrics = false;
  touch_id_account = [];
  touch_id_service = [];
  op_timeout = pos 0;
  op_vault_id = [];
  op_item_title_prefix = [];
  op_item_tag = [];
  op_item_field_title = [];
  op_connect_host = [];
  op_connect_token_env = [];
  op_token_env = [];
  op_token_func = none;
  op_desktop_account_id = [];
}

module _ {W : Type 0} (supported : Supported W (Keyring W)) (flags : Flags) where
  unfoldable pub has_backend : Bytes → Bool
  has_backend key = contains (available_backends supported) key

  unfoldable pub allowed_backends : Result (List BackendType)
  unfolding has_backend
  allowed_backends =
      if not (is_empty flags.backend)
      then if not (has_backend flags.backend)
        then err (message "Backend %q isn't available. Use -list-backends to see what is.")
        else ok (flags.backend ∷ [])
      else ok (available_backends supported)

  -- The `switch`: what goes to the standard output.
  pub act : Keyring W → Exec W Bytes
  unfolding lines
  act ring =
      if flags.list_keys
      then (do keys ← ring.keys; pure (lines keys))
      else if not (is_empty flags.set)
      then (do ring.set (plain_item flags.key flags.set); pure [])
      else (do i ← ring.get flags.key; pure i.content)

  -- An error is a call of `log.Fatal`.
  pub main : Exec W Bytes
  unfolding lines allowed_backends config_of act
  main = if flags.list_backends then pure (lines (available_backends supported)) else (do
    allowed ← lift allowed_backends
    ring ← open_keyring supported (config_of flags allowed)
    act ring)
