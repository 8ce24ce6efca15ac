-- ===== src/OnePassword/Titles.antt =====
-- Titles of items in 1Password and keys (opcommon.go).
use keyring.Prelude.{
  ◌≡◌, sym, subst, ◌∙◌, ◌↔◌, Bytes, true, has_prefix, trim_prefix, has_prefix-append,
  trim_prefix-append, append-trim_prefix, append_assoc, ◌++◌, arith,
}
use keyring.OnePassword.Base.{
  OpBaseKeyring, title_from_key, key_from_title, item_title_prefix_key_sep,
}

module _ {W : Type 0} (k : OpBaseKeyring W) where
  abbrev prefix : Bytes
  prefix = k.item_title_prefix ++ item_title_prefix_key_sep

  title_from_key-append : (key : Bytes) → title_from_key k key ≡ prefix ++ key
  unfolding title_from_key
  title_from_key-append key = simp append_assoc

  -- The key of the title of a key is that key, for any prefix.
  pub key_from_title-title_from_key : (key : Bytes) → key_from_title k (title_from_key k key) ≡ key
  unfolding key_from_title
  key_from_title-title_from_key key = rw (title_from_key-append key) (trim_prefix-append prefix key)

  -- The title of the key of a title is that title exactly if it has the prefix and the separator:
  -- so `Keys` lists any other item under a key that names an item of another title.
  title_from_key_iff :
      (title : Bytes)
      → (title_from_key k (key_from_title k title) ≡ title) ↔ (has_prefix title prefix ≡ true)
  unfolding key_from_title
  title_from_key_iff title = (
    λ h.
        subst (λ (t : Bytes). has_prefix t prefix ≡ true)
          (sym (title_from_key-append (trim_prefix title prefix)) ∙ h)
          (has_prefix-append prefix (trim_prefix title prefix)),
    λ h.
        title_from_key-append (trim_prefix title prefix)
        ∙ ground (arith, append-trim_prefix title prefix h),
  )
