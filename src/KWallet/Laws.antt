-- ===== src/KWallet/Laws.antt =====
-- The KWallet backend (kwallet.go) against the contract of a keyring.
use keyring.Prelude.{◌≡◌, Bytes, Bool, true, Option, list_eq, nat_eq}
use keyring.Prelude.Int.{ℤ}
use keyring.Exec.{ok}
use keyring.Exec.Object.{Object}
use keyring.Api.{ItemCodec}
use keyring.KWallet.{KwalletKeyring, open_wallet}
use keyring.KWallet.Calls.{Bus}
use keyring.KWallet.Assumed.{IsWallet}

module _ {W : Type 0} (bus : Bus W) (json : ItemCodec) (k : KwalletKeyring) (is_open : W → ℤ → Bool)
    (content : W → Bytes → Option Bytes) (wallet : (w : W) → IsWallet bus k is_open content w) where
  abbrev State : Type 0
  State = Object ℤ W

  -- The keyring with an open handle, and the same entries.
  record Opened (o : State) : Type 0 where
    h : ℤ
    v : W
    run : open_wallet bus json k o ≡ (ok tt, record { fields = h; world = v })
    is_open_v : is_open v h ≡ true
    same : (j : Bytes) → content v j ≡ content o.world j

  abbrev pub texts : State → Bytes → Option Bytes
  texts o key = content o.world key
