-- ===== src/OnePassword/Items.antt =====
-- What opstandard.go and opconnect.go make of the items of a vault.
use keyring.Prelude.{
  Bytes, Bool, not, List, [], ◌∷◌, ◌++◌, length, contains, ◌==◌, list_eq, nat_eq, if◌then◌else◌,
}
use keyring.Errors.{
  sentinel, message, wrapf, err_key_not_found, op_err_item_multiple, op_err_item_title_duplicate,
}
use keyring.Exec.{Result, ok, err}
use keyring.OnePassword.Sdk.{OpField, OpItem}
use keyring.OnePassword.Base.{OpBaseKeyring, key_from_title}

unfoldable pub single : List OpItem → Result OpItem
single [] = err (sentinel err_key_not_found)
single (i ∷ []) = ok i
single (i ∷ j ∷ items) = err (
    wrapf "%w: matched %v items with title %#v in vault with ID %#v"
      (sentinel op_err_item_multiple))

-- `opItem.Fields[0].Value`; an index out of range is a panic.
unfoldable pub first_value : List OpField → Result Bytes
first_value [] = err (message "index out of range")
first_value (f ∷ fields) = ok f.value

-- The titles that occur, each once and in order of the first occurrence, behind those seen.
unfoldable pub distinct_titles : List Bytes → List OpItem → List Bytes
distinct_titles seen [] = seen
distinct_titles seen (i ∷ items) =
    if contains seen i.title
    then distinct_titles seen items
    else distinct_titles (seen ++ i.title ∷ []) items

module _ {W : Type 0} (k : OpBaseKeyring W) where
  -- `len(opItemFields) != 1 || opItemFields[0].Title != k.ItemFieldTitle`, negated.
  unfoldable pub is_item_field : List OpField → Bool
  is_item_field (f ∷ []) = f.title == k.item_field_title
  is_item_field fields = Bool.false

  unfoldable pub keys_of_titles : List Bytes → List Bytes
  keys_of_titles [] = []
  keys_of_titles (t ∷ titles) = key_from_title k t ∷ keys_of_titles titles

  unfoldable pub keys_of_items : List OpItem → Result (List Bytes)
  unfolding distinct_titles keys_of_titles
  keys_of_items items =
      let titles = distinct_titles [] items in
      if not (length titles == length items)
      then err (wrapf "%w in vault with ID %#v: %#v" (sentinel op_err_item_title_duplicate))
      else ok (keys_of_titles titles)
