-- ===== src/Pass/Listing.antt =====
-- The keys that pass.go and passage.go list.
use keyring.Prelude.{
  ◌≡◌, ◌∙◌, refl, sym, ap, ltb_iff, ◌+◌, Bytes, true, false, none, some, List, [], ◌∷◌, ◌++◌,
  length, length-append, trim_prefix-append, first_bytes-append, append_assoc, append-nil, map, ltb,
  ◌==◌, ==_refl, list_eq, nat_eq, arith,
}
use Prim.Native.Nat.{◌-◌}
use keyring.Exec.{ok}
use keyring.Api.{ItemCodec}
use keyring.File.System.{FileInfo}
use keyring.File.System.{System as FileSystem}
use keyring.Pass.Commands.{Visit, visited, Shell}
use keyring.Pass.{
  PassKeyring, Flavor, without_separator, without_extension, key_of_path, keys_of_visits, walked,
  keys_in, keys,
}

-- What is below the directory of a store: a directory, the file of a key, or another file.
pub data Entry : Type 0 where
  directory : Bytes → Entry
  key_file : Bytes → Entry
  other_file : Bytes → Entry

abbrev pub listed_keys : List Entry → List Bytes
listed_keys [] = []
listed_keys (directory p ∷ entries) = listed_keys entries
listed_keys (key_file key ∷ entries) = key ∷ listed_keys entries
listed_keys (other_file p ∷ entries) = listed_keys entries

without_extension-append :
    (key ext : Bytes) → length ext ≡ 4 → without_extension (key ++ ext) ≡ ok key
unfolding without_extension
without_extension-append key ext four =
    let total : length (key ++ ext) ≡ length key + 4 =
      length-append key ext ∙ ap (λ n. length key + n) four in
    let enough : ltb (length (key ++ ext)) 4 ≡ false =
      ground (arith, total, ltb_iff (length (key ++ ext)) 4) in
    let rest : length (key ++ ext) - 4 ≡ length key = omega (arith, total) in
    rw (enough, rest, first_bytes-append key ext) refl

module _ {W : Type 0} (system : FileSystem W) (shell : Shell W) (flavor : Flavor) (json : ItemCodec)
    (k : PassKeyring) where
  -- The path of a key's file in the store's directory.
  abbrev pub file_of : Bytes → Bytes → Bytes
  file_of path key = path ++ system.separator ∷ (key ++ flavor.extension)

  abbrev pub visit : Bytes → Entry → Visit
  visit path (directory p) = visited p true
  visit path (key_file key) = visited (file_of path key) false
  visit path (other_file p) = visited p false

  -- `filepath.Ext` tells the files of keys from others.
  abbrev pub AreTold : Bytes → List Entry → Type 0
  AreTold path [] = Unit
  AreTold path (directory p ∷ entries) = AreTold path entries
  AreTold path (key_file key ∷ entries) =
      (shell.ext (file_of path key) ≡ flavor.extension) × AreTold path entries
  AreTold path (other_file p ∷ entries) =
      ((shell.ext p == flavor.extension) ≡ false) × AreTold path entries

  key_of_path-file_of :
      (path key : Bytes)
      → length flavor.extension ≡ 4
      → key_of_path system shell flavor json k path (file_of path key) ≡ ok key
  unfolding key_of_path without_separator
  key_of_path-file_of path key four =
      rw
        (
          trim_prefix-append path (system.separator ∷ (key ++ flavor.extension)),
          ==_refl system.separator,
          without_extension-append key flavor.extension four,
        )
        refl

  keys_of_visits-entries :
      (path : Bytes) (found : List Bytes) (entries : List Entry)
      → length flavor.extension ≡ 4
      → AreTold path entries
      → keys_of_visits system shell flavor json k path found (map (visit path) entries)
        ≡ ok (found ++ listed_keys entries)
  unfolding keys_of_visits
  keys_of_visits-entries path found [] four told = ap ok (sym (append-nil found))
  keys_of_visits-entries path found (directory p ∷ entries) four told =
      keys_of_visits-entries path found entries four told
  keys_of_visits-entries path found (key_file key ∷ entries) four (same, told) =
      rw (same, ==_refl flavor.extension, key_of_path-file_of path key four)
        (keys_of_visits-entries path (found ++ key ∷ []) entries four told
          ∙ ap ok (append_assoc found (key ∷ []) (listed_keys entries)))
  keys_of_visits-entries path found (other_file p ∷ entries) four (other, told) =
      rw other (keys_of_visits-entries path found entries four told)

  -- `Keys` of a store whose directory is there and can be walked returns the key of each file with
  -- the store's extension, whose four bytes it drops, in the order of the walk and at any depth,
  -- and nothing for other files and for directories.
  pub keys-entries :
      (w v : W) (info : FileInfo) (entries : List Entry)
      → length flavor.extension ≡ 4
      → system.stat (shell.join_all (k.dir ∷ k.prefix ∷ [])) w ≡ ((some info, none), w)
      → info.is_dir ≡ true
      → AreTold (shell.join_all (k.dir ∷ k.prefix ∷ [])) entries
      → shell.walk (shell.join_all (k.dir ∷ k.prefix ∷ [])) w
        ≡ (map (visit (shell.join_all (k.dir ∷ k.prefix ∷ []))) entries, v)
      → keys system shell flavor json k w ≡ (ok (listed_keys entries), v)
  unfolding keys keys_in walked
  keys-entries w v info entries four there is_dir told walks =
      rw
        (
          there,
          is_dir,
          walks,
          keys_of_visits-entries (shell.join_all (k.dir ∷ k.prefix ∷ [])) [] entries four told,
        )
        refl
