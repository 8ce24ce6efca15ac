-- ===== src/Tests/Windows.antt =====
-- The in-memory keyring and the Windows credential backend.
use keyring.Prelude.{◌≡◌, refl, codes, List, [], ◌∷◌, list_eq, nat_eq}
use keyring.Exec.{ok}
use keyring.Api.{Item, plain_item}
use keyring.Array.Laws.{view}
use keyring.WinCred.{WindowsKeyring, get, set}
use keyring.WinCred.Laws.{view as credential_view}
use keyring.WinCred.Services.{get-set_overlap}
use keyring.Tests.Memory.{Memory, memory, blob_of, takes, memory-IsManager}

abbrev two_items : List Item
two_items = plain_item (codes "a") (1 ∷ []) ∷ plain_item (codes "a") (2 ∷ []) ∷ []

abbrev app : WindowsKeyring
app = record { name = codes "app"; prefix = codes "keyring" }

abbrev one_credential : Memory
one_credential = (codes "keyring:app:X", 5 ∷ []) ∷ []

get-set_overlap_example :
    (get memory
      (record { name = codes "app"; prefix = codes "keyring" })
      (codes "web:x")
      (set memory
        (record { name = codes "app:web"; prefix = codes "keyring" })
        (plain_item (codes "x") (9 ∷ []))
        one_credential).1).0
    ≡ ok (plain_item (codes "web:x") (9 ∷ []))
unfolding takes
get-set_overlap_example =
    get-set_overlap memory blob_of takes memory-IsManager (codes "keyring") (codes "app")
      (codes "web") one_credential (plain_item (codes "x") (9 ∷ [])) refl
