-- ===== src/KWallet/Refused.antt =====
-- The KWallet backend (kwallet.go) where the user does not open the wallet.
use keyring.Prelude.{◌≡◌, refl, codes, Bytes, false, [], ◌∷◌}
use keyring.Prelude.Int.{ℤ, pos, negsuc}
use keyring.Errors.{sentinel, err_key_not_found}
use keyring.Exec.{ok, err}
use keyring.Exec.Object.{Object}
use keyring.Api.{Item, ItemCodec}
use keyring.KWallet.{KwalletKeyring, open_wallet, get, set, remove}
use keyring.KWallet.Calls.{
  Bus, bool_value, int32_value, int64_value, text_value, bytes_value, wallet_is_open, wallet_open,
  write_entry, remove_entry, read_entry,
}

-- In the state `w` the handle `h` is not open; opening the wallet gives the handle -1; with that
-- handle an entry reads as no bytes, and writing or removing one does nothing and has a status.
pub record RefusesToOpen {W : Type 0} (bus : Bus W) (k : KwalletKeyring) (h : ℤ) (w : W)
    : Type 0 where
  pub is_open_result :
      bus (codes "org.kde.KWallet.isOpen") (int32_value h ∷ []) w ≡ (ok (bool_value false ∷ []), w)
  pub open_result :
      bus
        (codes "org.kde.KWallet.open")
        (text_value k.name ∷ int64_value (pos 0) ∷ text_value k.app_id ∷ [])
        w
      ≡ (ok (int32_value (negsuc 0) ∷ []), w)
  pub read_result :
      (key : Bytes)
      → bus
          (codes "org.kde.KWallet.readEntry")
          (int32_value (negsuc 0) ∷ text_value k.folder ∷ text_value key ∷ text_value k.app_id ∷ [])
          w
        ≡ (ok (bytes_value [] ∷ []), w)
  pub status : ℤ
  pub write_result :
      (key value : Bytes)
      → bus
          (codes "org.kde.KWallet.writeEntry")
          (int32_value (negsuc 0)
            ∷ text_value k.folder
            ∷ text_value key
            ∷ bytes_value value
            ∷ text_value k.app_id
            ∷ [])
          w
        ≡ (ok (int32_value status ∷ []), w)
  pub remove_result :
      (key : Bytes)
      → bus
          (codes "org.kde.KWallet.removeEntry")
          (int32_value (negsuc 0) ∷ text_value k.folder ∷ text_value key ∷ text_value k.app_id ∷ [])
          w
        ≡ (ok (int32_value status ∷ []), w)

-- Where the user refuses to open the wallet, `Get` says of every key that there is no item, and
-- `Set`, of an item that JSON can write, and `Remove` report success while nothing changes.
pub refused_wallet :
    {W : Type 0} (bus : Bus W) (json : ItemCodec) (k : KwalletKeyring) (o : Object ℤ W) (i : Item)
    (key text : Bytes)
    → RefusesToOpen bus k o.fields o.world
    → json.encode i ≡ ok text
    → ((get bus json k key o).0 ≡ err (sentinel err_key_not_found))
      × (set bus json k i o ≡ (ok tt, record { fields = negsuc 0; world = o.world }))
      × (remove bus json k key o ≡ (ok tt, record { fields = negsuc 0; world = o.world }))
unfolding get set remove open_wallet wallet_is_open wallet_open read_entry write_entry remove_entry
refused_wallet bus json k o i key text refuses encoded = (
  rw (refuses.is_open_result) (rw (refuses.open_result) (rw (refuses.read_result key) refl)),
  rw (refuses.is_open_result)
      (rw (refuses.open_result, encoded) (rw (refuses.write_result i.key text) refl)),
  rw (refuses.is_open_result) (rw (refuses.open_result) (rw (refuses.remove_result key) refl)),
)
