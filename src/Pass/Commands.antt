-- ===== src/Pass/Commands.antt =====
-- What pass.go and passage.go call beside the file system: commands, the environment and
-- `filepath.Walk`.
use keyring.Prelude.{Bytes, Bool, Option, List}
use keyring.Errors.{Error}
use keyring.Exec.{Exec}
use keyring.WinHello.Window.{Ask}

-- A command: its environment is the program's, with one variable more if there is one.
pub record Command : Type 0 where
  pub program : Bytes
  pub arguments : List Bytes
  pub environment : Option Bytes
  pub stdin : Option Bytes

-- What `filepath.Walk` hands to its function.
pub data Visit : Type 0 where
  visited : Bytes → Bool → Visit
  failed : Error → Visit

pub record Shell (W : Type 0) : Type 0 where
  -- `Output` and `Run`
  pub output : Command → Exec W Bytes
  pub run : Command → Exec W Unit
  pub look_path : Bytes → Exec W Unit
  pub lookup_env : Bytes → Ask W (Option Bytes)
  pub walk : Bytes → Ask W (List Visit)
  -- `filepath.Join` of any number of elements, and `filepath.Ext`
  pub join_all : List Bytes → Bytes
  pub ext : Bytes → Bytes
