-- ===== src/Stored.antt =====
-- Items that a backend keeps as the texts that `json.Marshal` makes of them.
pub mod Keeping
use keyring.Prelude.{◌≡◌, Bytes, false, Option, none, some, is_empty}
use keyring.Exec.{Result, ok, err}
use keyring.Api.{Item, ItemCodec}

-- What encoding/json says of `Item`: it has a text, which is not empty and reads back as `kept`
-- of the item, that is with what is no UTF-8 replaced.
pub record WritesItems (json : ItemCodec) (text : Item → Bytes) (kept : Item → Item) : Type 0 where
  pub encode_result : (i : Item) → json.encode i ≡ ok (text i)
  pub text_full : (i : Item) → is_empty (text i) ≡ false
  pub decode_text : (i : Item) → json.decode (text i) ≡ ok (kept i)

abbrev pub value_of {ℓ} : {A : Type ℓ} → Result A → Option A
value_of (ok a) = some a
value_of (err e) = none

-- The item that a stored text is.
abbrev pub decoded : ItemCodec → Option Bytes → Option Item
decoded json none = none
decoded json (some b) = value_of (json.decode b)

-- What is stored, if anything is, is the text of an item.
abbrev pub Parses : ItemCodec → Option Bytes → Type 0
Parses json none = Unit
Parses json (some b) = (is_empty b ≡ false) × (i : Item) × (json.decode b ≡ ok i)
