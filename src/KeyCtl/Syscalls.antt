-- ===== src/KeyCtl/Syscalls.antt =====
-- The calls of keyctl.go into golang.org/x/sys/unix and the kernel, as an interface. A call takes
-- an int32 sign-extended, which its number stands for, and its result is an int.
use Prim.Native.Nat.{◌%◌, ◌^◌}
use keyring.Prelude.{ℕ, Bytes}
use keyring.Exec.{Exec}

abbrev pub Serial : Type 0
Serial = ℕ

pub record Kernel (W : Type 0) : Type 0 where
  -- the special keyrings of unix.KEY_SPEC_…
  pub thread_keyring : Serial
  pub process_keyring : Serial
  pub session_keyring : Serial
  pub user_keyring : Serial
  pub user_session_keyring : Serial
  pub add_key : Bytes → Bytes → Bytes → Serial → Exec W ℕ
  pub keyctl_search : Serial → Bytes → Bytes → Exec W ℕ
  -- `KeyctlBuffer(KEYCTL_READ, …)` with a buffer of that size: the length of what there is to read,
  -- and the buffer
  pub keyctl_read : Serial → ℕ → Exec W (ℕ × Bytes)
  pub keyctl_describe : Serial → Exec W Bytes
  pub get_keyring_id : Serial → Exec W ℕ
  -- the key first
  pub link : Serial → Serial → Exec W Unit
  pub unlink : Serial → Serial → Exec W Unit
  pub setperm : Serial → ℕ → Exec W Unit

-- `syscall.ENOKEY`
abbrev pub enokey : ℕ
enokey = 126

-- The conversion from int to int32.
abbrev pub int32 : ℕ → Serial
int32 n = n % 2 ^ 32
