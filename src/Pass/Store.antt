-- ===== src/Pass/Store.antt =====
-- `Get`, `Set` and `Remove` of the pass and passage backends (pass.go, passage.go).
use keyring.Prelude.{
  ◌≡◌, ◌∙◌, refl, sym, ap, ==_refl, true, false, ◌==◌, Bytes, codes, Bool, Option, none, some,
  Option-cases, inl, inr, is_some, List, [], ◌∷◌, ◌++◌, list_eq, nat_eq, if◌then◌else◌, arith,
}
use keyring.Errors.{Error, sentinel, err_key_not_found}
use keyring.Exec.{Result, ok, err}
use keyring.Api.{Item, ItemCodec}
use keyring.File.System.{System as FileSystem}
use keyring.Pass.Commands.{Command, Shell}
use keyring.Pass.{PassKeyring, Flavor, pass_command, is_there, item_exists, get, set, remove}

module _ {W : Type 0} (system : FileSystem W) (shell : Shell W) (flavor : Flavor) (json : ItemCodec)
    (k : PassKeyring) where
  abbrev pub name_of : Bytes → Bytes
  name_of key = shell.join_all (k.prefix ∷ key ∷ [])

  abbrev pub file_path : Bytes → Bytes
  file_path key = shell.join_all (k.dir ∷ k.prefix ∷ (key ++ flavor.extension) ∷ [])

  -- What the program is run with, on its input if there is one.
  abbrev pub runs : List Bytes → Option Bytes → Command
  runs = pass_command system shell flavor json k

  -- The error of `os.Stat`.
  abbrev pub missing : Error → Option Bytes → Option Error
  missing no_file none = some no_file
  missing no_file (some text) = none

  -- The program keeps a text for each clean key, in a file of its own.
  pub record IsStore (IsClean : Bytes → Type 0) (content : W → Bytes → Option Bytes)
      (no_file : Error) (w : W) : Type 0 where
    pub there :
        (key : Bytes)
        → IsClean key
        → (system.stat (file_path key) w).0.1 ≡ missing no_file (content w key)
    pub stat_content : (p j : Bytes) → content (system.stat p w).1 j ≡ content w j
    pub show_result :
        (key text : Bytes)
        → IsClean key
        → content w key ≡ some text
        → (shell.output (runs (codes "show" ∷ name_of key ∷ []) none) w).0 ≡ ok text
    pub show_content :
        (key j : Bytes)
        → content (shell.output (runs (codes "show" ∷ name_of key ∷ []) none) w).1 j ≡ content w j
    pub insert_result :
        (key text : Bytes)
        → IsClean key
        → (shell.run
            (runs (codes "insert" ∷ codes "-m" ∷ codes "-f" ∷ name_of key ∷ []) (some text))
            w).0
          ≡ ok tt
    pub insert_content :
        (key text j : Bytes)
        → IsClean key
        → IsClean j
        → content
            (shell.run
              (runs (codes "insert" ∷ codes "-m" ∷ codes "-f" ∷ name_of key ∷ []) (some text))
              w).1
            j
          ≡ (if key == j then some text else content w j)
    pub rm_result :
        (key : Bytes)
        → IsClean key
        → is_some (content w key) ≡ Bool.true
        → (shell.run (runs (codes "rm" ∷ codes "-f" ∷ name_of key ∷ []) none) w).0 ≡ ok tt
    pub rm_content :
        (key j : Bytes)
        → IsClean key
        → IsClean j
        → content (shell.run (runs (codes "rm" ∷ codes "-f" ∷ name_of key ∷ []) none) w).1 j
          ≡ (if key == j then none else content w j)

  -- What `Get` makes of what is stored.
  abbrev pub fetched : Option Bytes → Result Item
  fetched none = err (sentinel err_key_not_found)
  fetched (some text) = json.decode text

  module _ (IsClean : Bytes → Type 0) (content : W → Bytes → Option Bytes) (no_file : Error)
      (store : (w : W) → IsStore IsClean content no_file w) where
    get_run :
        (key : Bytes) (w : W)
        → IsClean key
        → ((get system shell flavor json k key w).0 ≡ fetched (content w key))
          × ((j : Bytes) → content (get system shell flavor json k key w).1 j ≡ content w j)
    unfolding get item_exists is_there pass_command
    get_run key w clean =
        let w₁ = (system.stat (file_path key) w).1 in
        let there = (store w).there key clean in
        let same = (store w).stat_content (file_path key) in
        elim (Option-cases (content w key)) [
          | inl none_there ↦
              (ground (arith, there, none_there), λ j. ground (arith, there, none_there, same j))
          | inr (text, stored) ↦
              let shown = (store w₁).show_result key text clean (same key ∙ stored) in
              (
                ground (arith, there, stored, shown),
                λ j. ground (arith, there, stored, shown, same j, (store w₁).show_content key j),
              )
        ]

    set_run :
        (i : Item) (text : Bytes) (w : W)
        → IsClean i.key
        → json.encode i ≡ ok text
        → ((set system shell flavor json k i w).0 ≡ ok tt)
          × ((j : Bytes)
              → IsClean j
              → content (set system shell flavor json k i w).1 j
                ≡ (if i.key == j then some text else content w j))
    unfolding set pass_command
    set_run i text w clean writes = (
      ground (arith, writes, (store w).insert_result i.key text clean),
      λ j clean_j. ground (arith, writes, (store w).insert_content i.key text j clean clean_j),
    )

    remove_run :
        (key : Bytes) (w : W)
        → IsClean key
        → ((remove system shell flavor json k key w).0
            ≡ (if is_some (content w key) then ok tt else err (sentinel err_key_not_found)))
          × ((j : Bytes)
              → IsClean j
              → content (remove system shell flavor json k key w).1 j
                ≡ (if key == j then none else content w j))
    unfolding remove item_exists is_there pass_command
    remove_run key w clean =
        let w₁ = (system.stat (file_path key) w).1 in
        let there = (store w).there key clean in
        let same = (store w).stat_content (file_path key) in
        elim (Option-cases (content w key)) [
          | inl absent ↦
              (ground (arith, there, absent), λ j clean_j. ground (arith, there, absent, same j))
          | inr (text, stored) ↦
              let present : is_some (content w₁ key) ≡ true = rw (same key, stored) refl in
              (
                ground (arith, there, stored, (store w₁).rm_result key clean present),
                λ j clean_j.
                    ground
                      (arith, there, stored, same j, (store w₁).rm_content key j clean clean_j),
              )
        ]

    -- Over a password store that keeps a text for each clean key, after a `Set` of an item `Get`
    -- returns what JSON keeps of it; `Remove` then succeeds, and once more is ErrKeyNotFound, as is
    -- `Get`; and of any other clean key `Get` returns all the time what it returned before.
    pub store_get-set-remove :
        (i kept : Item) (text j : Bytes) (w : W)
        → IsClean i.key
        → IsClean j
        → (i.key == j) ≡ false
        → json.encode i ≡ ok text
        → json.decode text ≡ ok kept
        → let w₁ = (set system shell flavor json k i w).1 in
          let w₂ = (remove system shell flavor json k i.key w₁).1 in
          ((set system shell flavor json k i w).0 ≡ ok tt)
          × ((get system shell flavor json k i.key w₁).0 ≡ ok kept)
          × ((get system shell flavor json k j w₁).0 ≡ (get system shell flavor json k j w).0)
          × ((remove system shell flavor json k i.key w₁).0 ≡ ok tt)
          × ((get system shell flavor json k i.key w₂).0 ≡ err (sentinel err_key_not_found))
          × ((get system shell flavor json k j w₂).0 ≡ (get system shell flavor json k j w).0)
          × ((remove system shell flavor json k i.key w₂).0 ≡ err (sentinel err_key_not_found))
    store_get-set-remove i kept text j w clean clean_j other writes reads =
        let w₁ = (set system shell flavor json k i w).1 in
        let w₂ = (remove system shell flavor json k i.key w₁).1 in
        let put = set_run i text w clean writes in
        let dropped = remove_run i.key w₁ clean in
        let here₁ : content w₁ i.key ≡ some text =
          ground (arith, put.1 i.key clean, ==_refl i.key) in
        let there₁ : content w₁ j ≡ content w j = ground (arith, put.1 j clean_j) in
        let here₂ : content w₂ i.key ≡ none =
          ground (arith, dropped.1 i.key clean, ==_refl i.key) in
        let there₂ : content w₂ j ≡ content w j = ground (arith, dropped.1 j clean_j, there₁) in
        (
          put.0,
          (get_run i.key w₁ clean).0 ∙ rw here₁ reads,
          (get_run j w₁ clean_j).0 ∙ ap fetched there₁ ∙ sym (get_run j w clean_j).0,
          dropped.0 ∙ rw here₁ refl,
          (get_run i.key w₂ clean).0 ∙ rw here₂ refl,
          (get_run j w₂ clean_j).0 ∙ ap fetched there₂ ∙ sym (get_run j w clean_j).0,
          (remove_run i.key w₂ clean).0 ∙ rw here₂ refl,
        )
