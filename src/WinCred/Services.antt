-- ===== src/WinCred/Services.antt =====
-- Services of the Windows credential backend (wincred.go) and the credentials they share.
use keyring.Prelude.{
  ◌≡◌, refl, ◌≢◌, Bytes, codes, false, Option, none, [], ◌∷◌, ◌++◌, arith, contains, list_eq,
  nat_eq, append_assoc, append_cancel_left,
}
use keyring.Errors.{Error}
use keyring.Exec.{ok}
use keyring.Api.{Item, plain_item}
use keyring.Credentials.{Credentials, IsManager}
use keyring.WinCred.{credential_name, get, set}

-- Where a text with no colon ends is fixed by the first colon behind it.
colon_split :
    (m n s t : Bytes)
    → contains m b':' ≡ false
    → contains n b':' ≡ false
    → m ++ (codes ":" ++ s) ≡ n ++ (codes ":" ++ t)
    → m ≡ n
unfolding contains
colon_split [] [] s t hm hn e = refl
colon_split [] (c ∷ n) s t hm hn e = ground arith
colon_split (c ∷ m) [] s t hm hn e = ground arith
colon_split (c ∷ m) (d ∷ n) s t hm hn e = ground (arith, colon_split m n s t)

-- Two services with one prefix and different names, neither with a colon, have no credential
-- name in common.
credential_name_apart :
    (prefix m n i j : Bytes)
    → contains m b':' ≡ false
    → contains n b':' ≡ false
    → m ≢ n
    → credential_name (record { name = m; prefix = prefix }) i
      ≢ credential_name (record { name = n; prefix = prefix }) j
unfolding credential_name
credential_name_apart prefix m n i j hm hn differ e = differ (
    colon_split m n i j hm hn
      (append_cancel_left (codes ":") _ _ (append_cancel_left prefix _ _ e)))

-- A key with a colon in it names an item of a service whose name goes on to that colon.
credential_name_overlap :
    (prefix n m key : Bytes)
    → credential_name (record { name = n; prefix = prefix }) (m ++ (codes ":" ++ key))
      ≡ credential_name (record { name = n ++ (codes ":" ++ m); prefix = prefix }) key
unfolding credential_name
credential_name_overlap prefix n m key = simp append_assoc

module _ {W : Type 0} (api : Credentials W) (blob : W → Bytes → Option Bytes)
    (refused : Bytes → Option Error) {fold : Bytes → Bytes}
    (manager : (w : W) → IsManager api fold blob refused w) (prefix n m : Bytes) where
  -- So an item stored in the service "n:m" under a key is returned by the service "n" under the
  -- key "m:key".
  pub get-set_overlap :
      (w : W) (i : Item)
      → refused i.content ≡ none
      → (get api
          (record { name = n; prefix = prefix })
          (m ++ (codes ":" ++ i.key))
          (set api (record { name = n ++ (codes ":" ++ m); prefix = prefix }) i w).1).0
        ≡ ok (plain_item (m ++ (codes ":" ++ i.key)) i.content)
  unfolding get set
  get-set_overlap w i taken = ground (
    arith,
    credential_name_overlap prefix n m i.key,
    (manager w).write_blob
        (credential_name (record { name = n ++ (codes ":" ++ m); prefix = prefix }) i.key) i.content
        (credential_name (record { name = n ++ (codes ":" ++ m); prefix = prefix }) i.key),
    (manager (set api (record { name = n ++ (codes ":" ++ m); prefix = prefix }) i w).1).get_result
        (credential_name (record { name = n ++ (codes ":" ++ m); prefix = prefix }) i.key),
  )
