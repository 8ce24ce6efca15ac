-- ===== src/Keychain/Library.antt =====
-- The part of github.com/byteness/go-keychain that the program uses, as an interface, with the
-- biometrics of github.com/noamcohen97/touchid-go and the terminal.
use keyring.Prelude.{ℕ, Bytes, Bool, Option, List}
use keyring.Errors.{Error}
use keyring.Exec.{Exec}
use keyring.WinHello.Window.{Ask}

pub data MatchLimit : Type 0 where
  one all : MatchLimit

-- `gokeychain.Access`; a nil list trusts the program itself.
pub record Access : Type 0 where
  pub label : Bytes
  pub trusted_applications : Option (List Bytes)

-- A `gokeychain.Item` of the class of generic passwords, by what its setters are called with: that
-- the library leaves out an empty text is up to it. A keychain goes by its path.
pub record Attributes : Type 0 where
  pub service : Bytes
  pub account : Option Bytes
  pub label : Option Bytes
  pub description : Option Bytes
  pub content : Option Bytes
  pub match_limit : Option MatchLimit
  pub return_attributes : Bool
  pub return_data : Bool
  pub return_ref : Bool
  pub match_search_list : Option Bytes
  pub keychain : Option Bytes
  pub synchronizable : Option Bool
  pub accessible_when_unlocked : Bool
  pub access : Option Access

pub record QueryResult : Type 0 where
  pub account : Bytes
  pub label : Bytes
  pub description : Bytes
  pub content : Bytes
  pub modification_date : ℕ

pub record Library (W : Type 0) : Type 0 where
  -- the results beside the error, either of which may be there
  pub query_item : Attributes → Ask W (List QueryResult × Option Error)
  pub add_item : Attributes → Exec W Unit
  pub update_item : Attributes → Attributes → Exec W Unit
  pub delete_item : Attributes → Exec W Unit
  -- `Status` of a keychain, `NewKeychain` and `NewKeychainWithPrompt`
  pub status : Bytes → Exec W Unit
  pub new_keychain : Bytes → Bytes → Exec W Unit
  pub new_keychain_with_prompt : Bytes → Exec W Unit
  pub lock_at_path : Bytes → Exec W Unit
  pub unlock_at_path : Bytes → Bytes → Exec W Unit
  -- comparison with `ErrorItemNotFound`, `ErrorDuplicateItem`, `ErrorNoSuchKeychain`
  pub is_item_not_found : Error → Bool
  pub is_duplicate_item : Error → Bool
  pub is_no_such_keychain : Error → Bool
  -- `fmt.Sprintf` of "%q"
  pub quoted : Bytes → Bytes
  -- `touchid.Authenticate` with the reason, and `term.ReadPassword`
  pub authenticate : Bytes → Exec W Unit
  pub read_password : Exec W Bytes
