-- ===== src/SecretService/Laws.antt =====
-- The Secret Service backend (secretservice.go) against the contract of a keyring.
use keyring.Prelude.{Bytes, Bool, Option, list_eq, nat_eq}
use keyring.Exec.Object.{Object}
use keyring.Api.{ItemCodec}
use keyring.SecretService.Service.{Service as LibSecret}
use keyring.SecretService.{SecretsKeyring}
use keyring.SecretService.Assumed.{IsService}

module _ {W : Type 0} (service : LibSecret W) (json : ItemCodec) (name c : Bytes)
    (content : W → Bytes → Option Bytes) (Holds : W → Bytes → Bytes → Bytes → Type 0)
    (is_locked : W → Bytes → Bool)
    (is_service : (w : W) → IsService service name c content Holds is_locked w) where
  abbrev State : Type 0
  State = Object SecretsKeyring W

  abbrev pub texts : State → Bytes → Option Bytes
  texts o key = content o.world key
