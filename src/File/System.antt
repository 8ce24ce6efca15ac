-- ===== src/File/System.antt =====
-- What file.go and tilde.go call of the packages os, path/filepath, runtime and time, of
-- github.com/byteness/percent and of github.com/dvsekhvalnov/jose2go.
use keyring.Prelude.{ℕ, Bytes, Bool, Option, List}
use keyring.Errors.{Error}
use keyring.Exec.{Exec, Result}
use keyring.WinHello.Window.{Ask}

pub record FileInfo : Type 0 where
  pub is_dir : Bool
  pub mod_time : ℕ

pub record System (W : Type 0) : Type 0 where
  pub user_home_dir : Exec W Bytes
  -- `os.Stat`, whose information may be nil
  pub stat : Bytes → Ask W (Option FileInfo × Option Error)
  pub mkdir_all : Bytes → ℕ → Exec W Unit
  pub read_file : Bytes → Exec W Bytes
  pub write_file : Bytes → Bytes → ℕ → Exec W Unit
  pub remove_file : Bytes → Exec W Unit
  -- `os.ReadDir`: the names that could be read, and the error
  pub read_dir : Bytes → Ask W (List Bytes × Option Error)
  -- `time.Now().String()`
  pub now_text : Ask W Bytes
  pub is_not_exist : Error → Bool
  -- `runtime.GOOS == "windows"`, and `filepath.Separator`
  pub on_windows : Bool
  pub separator : ℕ
  -- `fmt.Sprintf` of "%q"
  pub quoted : Bytes → Bytes
  -- `filepath.Join` of two elements
  pub join : Bytes → Bytes → Bytes

pub record Codecs (W : Type 0) : Type 0 where
  -- `percent.Encode(s, chars)` and `percent.Decode`
  pub percent_encode : Bytes → Bytes → Bytes
  pub percent_decode : Bytes → Bytes
  -- `jose.Encrypt` of a payload under a password, with the header "created"
  pub jose_encrypt : Bytes → Bytes → Bytes → Exec W Bytes
  -- `jose.Decode` of a token under a password, down to the payload
  pub jose_decode : Bytes → Bytes → Result Bytes
