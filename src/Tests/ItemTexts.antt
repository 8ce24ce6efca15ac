-- ===== src/Tests/ItemTexts.antt =====
-- A codec that keeps the data of an item alone, behind a brace.
use keyring.Prelude.{refl, Bytes, [], ◌∷◌}
use keyring.Errors.{message}
use keyring.Exec.{Result, ok, err}
use keyring.Api.{Item, ItemCodec, plain_item}
use keyring.Stored.{WritesItems}

abbrev pub text_of : Item → Bytes
text_of i = b'{' ∷ i.content

abbrev pub kept_of : Item → Item
kept_of i = plain_item [] i.content

abbrev pub item_of : Bytes → Result Item
item_of [] = err (message "unexpected end of JSON input")
item_of (b ∷ bs) = ok (plain_item [] bs)

abbrev pub item_texts : ItemCodec
item_texts = record { encode = λ i. ok (text_of i); decode = item_of }

pub item_texts-WritesItems : WritesItems item_texts text_of kept_of
item_texts-WritesItems = record {
  encode_result = λ i. refl;
  text_full = λ i. refl;
  decode_text = λ i. refl;
}
