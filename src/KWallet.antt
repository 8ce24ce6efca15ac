-- ===== src/KWallet.antt =====
-- kwallet.go: items as JSON in a folder of a KDE wallet.
pub mod Calls
pub mod Assumed
pub mod Laws
pub mod Refused
use keyring.Prelude.{Bytes, codes, List, or_default, is_empty, not, if◌then◌else◌}
use keyring.Prelude.Int.{ℤ, pos}
use keyring.Errors.{sentinel, err_key_not_found, err_metadata_needs_credentials}
use keyring.Exec.{Exec, Result, pure, raise, lift, ◌>>=◌, ◌>>◌}
use keyring.Exec.Object.{Object, outside, get_fields, put_fields}
use keyring.Api.{Item, Metadata, Keyring, Config, ItemCodec}
use keyring.KWallet.Calls.{
  Bus, wallet_is_open, wallet_open, entry_list, write_entry, remove_entry, read_entry,
}

-- The fields that no method changes; `handle` stands beside the world.
pub record KwalletKeyring : Type 0 where
  pub name : Bytes
  pub app_id : Bytes
  pub folder : Bytes

module _ {W : Type 0} (bus : Bus W) (json : ItemCodec) (k : KwalletKeyring) where
  abbrev State : Type 0
  State = Object ℤ W

  unfoldable pub open_wallet : Exec State Unit
  open_wallet = do
    old ← get_fields
    is_open ← outside (wallet_is_open bus old)
    (if not is_open
        then (do handle ← outside (wallet_open bus k.name (pos 0) k.app_id); put_fields handle)
        else pure tt)

  pub get : Bytes → Exec State Item
  get key = do
    open_wallet
    handle ← get_fields
    content ← outside (read_entry bus handle k.folder key k.app_id)
    (if is_empty content then raise (sentinel err_key_not_found) else lift (json.decode content))

  pub get_metadata : Bytes → Exec State Metadata
  get_metadata key = raise (sentinel err_metadata_needs_credentials)

  pub set : Item → Exec State Unit
  set item = do
    open_wallet
    content ← lift (json.encode item)
    handle ← get_fields
    outside (write_entry bus handle k.folder item.key content k.app_id)

  pub remove : Bytes → Exec State Unit
  remove key = do
    open_wallet
    handle ← get_fields
    outside (remove_entry bus handle k.folder key k.app_id)

  pub keys : Exec State (List Bytes)
  keys = do open_wallet; handle ← get_fields; outside (entry_list bus handle k.folder k.app_id)

  abbrev pub kwallet_ring : Keyring State
  kwallet_ring = record {
    get = get;
    get_metadata = get_metadata;
    set = set;
    remove = remove;
    keys = keys;
  }

module _ {W : Type 0} (bus : Bus W) (json : ItemCodec) where
  -- The opener, on a machine with a session bus: the keyring, and the first opening of the wallet.
  pub new_kwallet_keyring : Config W → KwalletKeyring
  new_kwallet_keyring cfg = record {
    name = or_default cfg.service_name (codes "kdewallet");
    app_id = or_default cfg.k_wallet_app_id (codes "keyring");
    folder = or_default cfg.k_wallet_folder (codes "keyring");
  }

  pub open_kwallet : Config W → W → Result (Unit {0}) × Object ℤ W
  unfolding new_kwallet_keyring
  open_kwallet cfg w =
      open_wallet bus json (new_kwallet_keyring cfg) (record { fields = pos 0; world = w })
