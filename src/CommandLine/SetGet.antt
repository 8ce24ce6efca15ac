-- ===== src/CommandLine/SetGet.antt =====
-- Two runs of the command line tool (cmd/keyring/main.go), one of which sets what the other gets.
use keyring.Prelude.{
  ◌≡◌, refl, ◌∙◌, Bytes, false, Option, none, some, List, [], is_empty, ==_refl, list_eq, nat_eq,
  arith,
}
use keyring.Errors.{Error}
use keyring.Exec.{Result, ok}
use keyring.Api.{Item, Keyring, BackendType, plain_item}
use keyring.Contract.{MeetsContract}
use keyring.Open.{Supported, open_keyring}
use keyring.CommandLine.{Flags, config_of, allowed_backends, act, main}

-- The flags of a run that gets the key, and of one that sets it.
abbrev pub getting : Flags → Flags
getting flags = record flags { list_backends = false; list_keys = false; set = [] }

abbrev pub setting : Flags → Bytes → Flags
setting flags value = record flags { list_backends = false; list_keys = false; set = value }

module _ {W : Type 0} (supported : Supported W (Keyring W)) (ring : Keyring W) (Good : W → Type 0)
    (view : W → Bytes → Option Item) (kept : Item → Item) (refused : Item → Option Error)
    (absent : Result (Unit {0}))
    (contract : (w : W) → Good w → MeetsContract ring Good view kept refused absent w) where
  -- From the state `w`, `Open` gives the keyring, and changes nothing in it.
  pub record Opens (flags : Flags) (allowed : List BackendType) (w : W) : Type 0 where
    pub opened : W
    pub open_result : open_keyring supported (config_of flags allowed) w ≡ (ok ring, opened)
    pub open_view : (j : Bytes) → view opened j ≡ view w j
    pub open_good : Good w → Good opened

  main-setting :
      (flags : Flags) (value : Bytes) (allowed : List BackendType) (w : W)
      → is_empty value ≡ false
      → allowed_backends supported (setting flags value) ≡ ok allowed
      → (o : Opens (setting flags value) allowed w) → refused (plain_item flags.key value) ≡ none
      → Good w
      → main supported (setting flags value) w
        ≡ (ok [], (ring.set (plain_item flags.key value) o.opened).1)
  unfolding main act
  main-setting flags value allowed w full able o taken good =
      rw (able, o.open_result, full)
        (ground (
          arith,
          (contract o.opened (o.open_good good)).set_result (plain_item flags.key value),
          taken,
        ))

  main-getting :
      (flags : Flags) (allowed : List BackendType) (item : Item) (w : W)
      → allowed_backends supported (getting flags) ≡ ok allowed
      → (o : Opens (getting flags) allowed w) → view w flags.key ≡ some item
      → Good w
      → (main supported (getting flags) w).0 ≡ ok item.content
  unfolding main act
  main-getting flags allowed item w able o there good =
      rw (able, o.open_result)
        (ground (
          arith,
          (contract o.opened (o.open_good good)).get_result flags.key,
          o.open_view flags.key,
          there,
        ))

  -- A run that sets a key to a value that is not empty, and that the backend takes, prints nothing,
  -- and a run that gets the key from the state that the first one leaves prints what the backend
  -- keeps of the value. Both runs name a backend that there is, or none, and `Open` gives both of
  -- them the same keyring, which keeps the contract of the interface.
  pub main-setting-getting :
      (flags : Flags) (value : Bytes) (allowed : List BackendType) (w : W)
      → Good w
      → is_empty value ≡ false
      → refused (plain_item flags.key value) ≡ none
      → allowed_backends supported (setting flags value) ≡ ok allowed
      → allowed_backends supported (getting flags) ≡ ok allowed
      → Opens (setting flags value) allowed w
      → ((v : W) → Opens (getting flags) allowed v)
      → ((main supported (setting flags value) w).0 ≡ ok [])
        × ((main supported (getting flags) (main supported (setting flags value) w).1).0
            ≡ ok ((kept (plain_item flags.key value)).content))
  main-setting-getting flags value allowed w good full taken able able' o os =
      let item : Item = plain_item flags.key value in
      let c = contract o.opened (o.open_good good) in
      let v : W = (ring.set item o.opened).1 in
      let there : view v flags.key ≡ some (kept item) =
        c.set_view item flags.key ∙ ground (arith, taken, ==_refl flags.key) in
      rw (main-setting flags value allowed w full able o taken good)
        (refl, main-getting flags allowed (kept item) v able' (os v) there (c.set_good item))
