-- ===== src/File/Assumed.antt =====
-- What file.go relies on of the file system, the paths and the codecs.
use keyring.Prelude.{
  ℕ, ◌≡◌, Bytes, codes, Bool, not, ◌&&◌, Option, none, some, is_empty, contains, ◌==◌, list_eq,
  nat_eq, if◌then◌else◌,
}
use keyring.Errors.{Error}
use keyring.Exec.{Result, ok, err}
use keyring.File.System.{FileInfo, Codecs}
use keyring.File.System.{System as FileSystem}

-- The name of a file in a directory, and not of the directory itself or one above it.
abbrev pub is_file_name : ℕ → Bytes → Bool
is_file_name separator name =
    not (is_empty name)
    && (not (name == codes ".") && (not (name == codes "..") && not (contains name separator)))

abbrev pub read_bytes : Error → Option Bytes → Result Bytes
read_bytes absent none = err absent
read_bytes absent (some b) = ok b

-- In the state `w` the directory is there, and files are read, written and removed by their paths.
-- `absent` is the error where there is no file. Encrypting under the password gives a token that
-- decodes under it.
pub record IsFileSystem {W : Type 0} (system : FileSystem W) (codecs : Codecs W)
    (home root password : Bytes) (absent : Error) (content : W → Bytes → Option Bytes) (w : W)
    : Type 0 where
  pub home_result : system.user_home_dir w ≡ (ok home, w)
  pub root_info : FileInfo
  pub root_result : system.stat root w ≡ ((some root_info, none), w)
  pub read_result : (p : Bytes) → system.read_file p w ≡ (read_bytes absent (content w p), w)
  pub written : Bytes → Bytes → W
  pub write_result : (p b : Bytes) → system.write_file p b 384 w ≡ (ok tt, written p b)
  pub write_content :
      (p b q : Bytes) → content (written p b) q ≡ (if p == q then some b else content w q)
  pub removed : Bytes → W
  pub remove_result :
      (p b : Bytes) → content w p ≡ some b → system.remove_file p w ≡ (ok tt, removed p)
  pub remove_content :
      (p q : Bytes) → content (removed p) q ≡ (if p == q then none else content w q)
  pub created : Bytes
  pub later : W
  pub now_result : system.now_text w ≡ (created, later)
  pub now_content : (q : Bytes) → content later q ≡ content w q
  pub token : Bytes → Bytes → Bytes
  pub drawn : Bytes → Bytes → W
  pub encrypt_result :
      (payload header : Bytes)
      → codecs.jose_encrypt payload password header w
        ≡ (ok (token payload header), drawn payload header)
  pub encrypt_content : (payload header q : Bytes) → content (drawn payload header) q ≡ content w q
  pub decode_token :
      (payload header : Bytes) → codecs.jose_decode (token payload header) password ≡ ok payload
