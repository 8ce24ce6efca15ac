-- ===== src/WinCred/Laws.antt =====
-- The Windows credential backend (wincred.go) against the contract of a keyring.
use mathlib.Core.Option
use keyring.Prelude.{
  ◌≡◌, Bool, refl, Bytes, Option, List, [], ◌∷◌, ◌++◌, arith, contains, list_eq, nat_eq,
  append-trim_prefix, has_prefix-append, trim_prefix-append,
}
use keyring.Errors.{Error}
use keyring.Api.{Item, plain_item}
use keyring.Credentials.{Credentials, IsManager, same_name}
use keyring.WinCred.{WindowsKeyring, credential_name, names_under}

pub contains-names_under :
    (p : Bytes) (ts : List Bytes) (j : Bytes) → contains (names_under p ts) j ≡ contains ts (p ++ j)
unfolding names_under contains
contains-names_under p [] j = refl
contains-names_under p (t ∷ ts) j = ground (
  arith,
  contains-names_under p ts j,
  append-trim_prefix t p,
  has_prefix-append p j,
  trim_prefix-append p j,
)

module _ {W : Type 0} (api : Credentials W) (blob : W → Bytes → Option Bytes)
    (k : WindowsKeyring) where
  abbrev pub view : W → Bytes → Option Item
  view w key = Option.map (plain_item key) (blob w (credential_name k key))

-- `Get` under a key returns the item with that key.
abbrev pub kept : Bytes → Item → Item
kept key i = plain_item key i.content

-- Two keys whose credential names differ at most in case.
abbrev pub same_key : (Bytes → Bytes) → WindowsKeyring → Bytes → Bytes → Bool
same_key fold k key j = same_name fold (credential_name k key) (credential_name k j)

module _ {W : Type 0} {api : Credentials W} {fold : Bytes → Bytes} {blob : W → Bytes → Option Bytes}
    {refused : Bytes → Option Error} (manager : (w : W) → IsManager api fold blob refused w)
    (k : WindowsKeyring) where
  -- There is a credential under the name of the key, spelled like that.
  abbrev pub is_spelled : W → Bytes → Bool
  is_spelled w key = contains (manager w).names (credential_name k key)
