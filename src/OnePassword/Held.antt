-- ===== src/OnePassword/Held.antt =====
-- The field `Client` of opsrvaccount.go and opdesktop.go, which is nil until an operation needs it.
pub mod Runs
use keyring.Prelude.{Option, none, some}
use keyring.Errors.{message}
use keyring.Exec.{Exec, pure, raise, ◌>>=◌, ◌>>◌}
use keyring.Exec.Object.{Object, outside, get_fields, put_fields}
use keyring.Api.{Keyring, ItemCodec}
use keyring.OnePassword.Base.{OpBaseKeyring}
use keyring.OnePassword.Sdk.{Client}
use keyring.OnePassword.Standard.{get, get_metadata, set, remove, keys}

abbrev pub Holder : Type 0 → Type 0
Holder W = Object (Option (Client W)) W

module _ {W : Type 0} where
  keep : Exec W (Client W) → Option (Client W) → Exec (Holder W) Unit
  keep make (some client) = pure tt
  keep make none = do client ← outside make; put_fields (some client)

  -- `if k.Client != nil { return nil }`, and else the client that is made, kept.
  unfoldable pub initialize_client : Exec W (Client W) → Exec (Holder W) Unit
  unfolding keep
  initialize_client make = do client ← get_fields; keep make client

  use_client : {A : Type 0} → (Client W → Exec W A) → Option (Client W) → Exec (Holder W) A
  use_client run none = raise (message "invalid memory address or nil pointer dereference")
  use_client run (some client) = outside (run client)

  -- An operation of the embedded `OPStandardKeyring`, once the client is there.
  unfoldable pub with_client :
      {A : Type 0} → Exec W (Client W) → (Client W → Exec W A) → Exec (Holder W) A
  unfolding use_client
  with_client make run = do initialize_client make; client ← get_fields; use_client run client

  module _ (make : Exec W (Client W)) (json : ItemCodec) (k : OpBaseKeyring W) where
    abbrev pub held_ring : Keyring (Holder W)
    held_ring = record {
      get = λ key. with_client make (λ client. get client json k key);
      get_metadata = λ key. pure (record { item = none; modification_time = 0 });
      set = λ item. with_client make (λ client. set client json k item);
      remove = λ key. with_client make (λ client. remove client json k key);
      keys = with_client make (λ client. keys client json k);
    }
