-- ===== src/OnePassword/Held/Runs.antt =====
-- Runs of operations of opsrvaccount.go and opdesktop.go, which make a client when one is needed.
use keyring.Prelude.{some}
use keyring.Exec.{Exec}
use keyring.Api.{ItemCodec}
use keyring.OnePassword.Sdk.{Client}
use keyring.OnePassword.Base.{OpBaseKeyring}
use keyring.OnePassword.Held.{Holder}

module _ {W : Type 0} (make : Exec W (Client W)) (json : ItemCodec) (k : OpBaseKeyring W) where
  -- An outcome of the operations of a client, beside that client.
  abbrev pub holding : {A : Type 0} → Client W → A × W → A × Holder W
  holding client (a, w) = (a, record { fields = some client; world = w })
