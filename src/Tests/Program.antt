-- ===== src/Tests/Program.antt =====
-- The pass program in memory: a text for each name, which it inserts, shows and removes.
use keyring.Prelude.{
  ◌≡◌, ◌∙◌, refl, ap, arith, Bytes, codes, false, Option, none, some, List, [], ◌∷◌, ◌++◌, length,
  length-append, trim_prefix, first_bytes, first_bytes-append, append_cancel_left, ◌==◌, list_eq,
  nat_eq, if◌then◌else◌,
}
use Prim.Native.Nat.{◌-◌}
use keyring.Errors.{Error, message, sentinel, err_key_not_found}
use keyring.Exec.{Exec, Result, ok, err}
use keyring.Api.{Item, plain_item}
use keyring.Dict.{lookup, insert, erase, lookup-insert, lookup-erase}
use keyring.File.System.{FileInfo}
use keyring.File.System.{System as FileSystem}
use keyring.Pass.{PassKeyring, pass, pass_command, get, set, remove}
use keyring.Pass.Commands.{Shell}
use keyring.Pass.Store.{IsStore, missing, store_get-set-remove}
use keyring.Tests.Files
use keyring.Tests.Memory.{Memory}
use keyring.Tests.ItemTexts.{item_texts, text_of}

abbrev k : PassKeyring
k = record { dir = codes "/store"; passcmd = codes "pass"; prefix = codes "app" }

joined : List Bytes → Bytes
joined [] = []
joined (part ∷ []) = part
joined (part ∷ next ∷ rest) = part ++ (b'/' ∷ joined (next ∷ rest))

without_four : Bytes → Bytes
without_four s = first_bytes (length s - 4) s

without_four-append : (s : Bytes) → without_four (s ++ codes ".gpg") ≡ s
unfolding without_four
without_four-append s =
    ap (λ n. first_bytes n (s ++ codes ".gpg")) (omega (arith, length-append s (codes ".gpg")))
    ∙ first_bytes-append s (codes ".gpg")

-- What is stored of the file at a path.
stored : Bytes → Memory → Option Bytes
unfolding without_four trim_prefix
stored path w = lookup (trim_prefix (without_four path) (codes "/store/")) w

no_file : Error
no_file = message "no such file or directory"

status : Option Bytes → Option FileInfo × Option Error
unfolding no_file
status none = (none, some no_file)
status (some text) = (some (record { is_dir = false; mod_time = 0 }), none)

shown : Option Bytes → Result Bytes
shown none = err (message "exit status 1")
shown (some text) = ok text

asked : List Bytes → Memory → Result Bytes
unfolding shown
asked (verb ∷ name ∷ []) w = if verb == codes "show" then shown (lookup name w) else shown none
asked arguments w = shown none

done : List Bytes → Option Bytes → Exec Memory Unit
done (verb ∷ flag ∷ name ∷ []) none w =
    if verb == codes "rm" then (ok tt, erase name w) else (err (message "exit status 1"), w)
done (verb ∷ flag ∷ force ∷ name ∷ []) (some text) w =
    if verb == codes "insert"
    then (ok tt, insert name text w)
    else (err (message "exit status 1"), w)
done arguments stdin w = (err (message "exit status 1"), w)

abbrev system : FileSystem Memory
system = record Files.system { stat = λ p w. (status (stored p w), w) }

abbrev shell : Shell Memory
shell = record {
  output = λ c w. (asked c.arguments w, w);
  run = λ c w. done c.arguments c.stdin w;
  look_path = λ p w. (ok tt, w);
  lookup_env = λ n w. (none, w);
  walk = λ p w. ([], w);
  join_all = joined;
  ext = λ p. codes ".gpg";
}

abbrev IsClean : Bytes → Type 0
IsClean key = Unit

abbrev content : Memory → Bytes → Option Bytes
content w key = lookup (codes "app/" ++ key) w

same_name : (p key j : Bytes) → ((p ++ key) == (p ++ j)) ≡ (key == j)
same_name p key j = ground (arith, append_cancel_left p key j)

missing_status :
    (o : Option Bytes) → (status o).1 ≡ missing system shell pass item_texts k no_file o
unfolding status
missing_status none = refl
missing_status (some text) = refl

stored_content :
    (key : Bytes) (w : Memory)
    → stored (codes "/store/app/" ++ (key ++ codes ".gpg")) w ≡ content w key
unfolding stored trim_prefix nat_eq
stored_content key w =
    ap (λ s. lookup (trim_prefix s (codes "/store/")) w)
      (without_four-append (codes "/store/app/" ++ key))

store : (w : Memory) → IsStore system shell pass item_texts k IsClean content no_file w
unfolding pass_command joined asked done list_eq nat_eq status stored
store w = record {
  there =
      λ key clean. ap (λ o. (status o).1) (stored_content key w) ∙ missing_status (content w key);
  stat_content = λ p j. refl;
  show_result = λ key text clean h. ap shown h;
  show_content = λ key j. refl;
  insert_result = λ key text clean. refl;
  insert_content = λ key text j clean clean_j. ground (
    arith,
    same_name (codes "app/") key j,
    lookup-insert (codes "app/" ++ key) (codes "app/" ++ j) text w,
  );
  rm_result = λ key clean h. refl;
  rm_content = λ key j clean clean_j. ground (
    arith,
    same_name (codes "app/") key j,
    lookup-erase (codes "app/" ++ key) (codes "app/" ++ j) w,
  );
}

abbrev x : Item
x = plain_item (codes "x") (5 ∷ [])

abbrev before : Memory
before = (codes "app/y", b'{' ∷ 6 ∷ []) ∷ []

abbrev after : Memory
after = (set system shell pass item_texts k x before).1

abbrev removed : Memory
removed = (remove system shell pass item_texts k (codes "x") after).1

store_get-set-remove_example :
    ((set system shell pass item_texts k x before).0 ≡ ok tt)
    × ((get system shell pass item_texts k (codes "x") after).0 ≡ ok (plain_item [] (5 ∷ [])))
    × ((get system shell pass item_texts k (codes "y") after).0
        ≡ (get system shell pass item_texts k (codes "y") before).0)
    × ((remove system shell pass item_texts k (codes "x") after).0 ≡ ok tt)
    × ((get system shell pass item_texts k (codes "x") removed).0
        ≡ err (sentinel err_key_not_found))
    × ((get system shell pass item_texts k (codes "y") removed).0
        ≡ (get system shell pass item_texts k (codes "y") before).0)
    × ((remove system shell pass item_texts k (codes "x") removed).0
        ≡ err (sentinel err_key_not_found))
unfolding list_eq nat_eq
store_get-set-remove_example =
    store_get-set-remove system shell pass item_texts k IsClean content no_file store x
      (plain_item [] (5 ∷ [])) (text_of x) (codes "y") before tt tt refl refl refl
