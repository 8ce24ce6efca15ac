-- ===== src/Tests/PasswordStore.antt =====
-- A password store with one key in a directory of its own.
use keyring.Prelude.{
  ◌≡◌, refl, Bytes, codes, none, List, [], ◌∷◌, ◌==◌, list_eq, nat_eq, true, false, if◌then◌else◌,
}
use keyring.Errors.{message}
use keyring.Exec.{ok, err}
use keyring.File.System.{FileInfo}
use keyring.Pass.{PassKeyring, pass, keys}
use keyring.Pass.Commands.{Shell, Visit, visited}
use keyring.Pass.Listing.{Entry, directory, key_file, other_file, keys-entries}
use keyring.Tests.Memory.{Memory}
use keyring.Tests.Files.{system}
use keyring.Tests.ItemTexts.{item_texts}

abbrev path : Bytes
path = codes "/store/app"

abbrev k : PassKeyring
k = record { dir = codes "/store"; passcmd = codes "pass"; prefix = codes "app" }

abbrev entries : List Entry
entries =
    directory path
    ∷ other_file (codes "/store/app/.gpg-id")
    ∷ directory (codes "/store/app/web")
    ∷ key_file (codes "web/x")
    ∷ []

-- The paths that `visit` gives, written out, since it takes the whole shell.
abbrev visits : List Visit
visits =
    visited path true
    ∷ visited (codes "/store/app/.gpg-id") false
    ∷ visited (codes "/store/app/web") true
    ∷ visited (codes "/store/app/web/x.gpg") false
    ∷ []

abbrev shell : Shell Memory
shell = record {
  output = λ c w. (err (message "exit status 1"), w);
  run = λ c w. (ok tt, w);
  look_path = λ p w. (ok tt, w);
  lookup_env = λ n w. (none, w);
  walk = λ p w. (visits, w);
  join_all = λ parts. path;
  ext = λ p. if p == codes "/store/app/.gpg-id" then codes ".gpg-id" else codes ".gpg";
}

abbrev info : FileInfo
info = record { is_dir = true; mod_time = 0 }

keys-entries_example : keys system shell pass item_texts k [] ≡ (ok (codes "web/x" ∷ []), [])
unfolding list_eq nat_eq
keys-entries_example =
    keys-entries system shell pass item_texts k [] [] info entries refl refl refl (refl, (refl, tt))
      refl
