-- ===== src/Tests/Wallet.antt =====
-- A wallet in memory behind its D-Bus methods, and one that the user does not open.
use keyring.Prelude.{
  ◌≡◌, refl, Bytes, codes, Bool, false, Option, List, [], ◌∷◌, ◌==◌, list_eq, nat_eq, if◌then◌else◌,
}
use keyring.Prelude.Int.{ℤ, pos, negsuc}
use keyring.Errors.{message, sentinel, err_key_not_found}
use keyring.Exec.{Exec, ok, err}
use keyring.Exec.Object.{Object}
use keyring.Api.{plain_item}
use keyring.Dict.{lookup, insert, erase, keys_of, lookup-insert, lookup-erase, contains-keys_of}
use keyring.KWallet.{KwalletKeyring, get, set, remove}
use keyring.KWallet.Calls.{Bus, Value, bool_value, int32_value, text_value, list_value, bytes_value}
use keyring.KWallet.Assumed.{IsWallet, entry_text}
use keyring.KWallet.Laws.{texts}
use keyring.KWallet.Refused.{RefusesToOpen, refused_wallet}
use keyring.Tests.Memory.{Memory}
use keyring.Tests.ItemTexts.{item_texts, text_of}

abbrev is_seven : ℤ → Bool
is_seven (pos n) = n == 7
is_seven (negsuc n) = false

-- The handle is 7.
call : List Value → Exec Memory (List Value)
call (int32_value h ∷ []) w = (ok (bool_value (is_seven h) ∷ []), w)
call (text_value name ∷ args) w = (ok (int32_value (pos 7) ∷ []), w)
call (int32_value h ∷ text_value folder ∷ text_value app ∷ []) w =
    (ok (list_value (keys_of w) ∷ []), w)
call (int32_value h ∷ text_value folder ∷ text_value key ∷ bytes_value value ∷ args) w =
    (ok (int32_value (pos 0) ∷ []), insert key value w)
call args w = (err (message "no such method"), w)

-- Reading and removing have the same arguments.
abbrev key_of : List Value → Bytes
key_of (h ∷ f ∷ text_value key ∷ args) = key
key_of args = []

bus : Bus Memory
unfolding call
bus method args w =
    if method == codes "org.kde.KWallet.readEntry"
    then (ok (bytes_value (entry_text (lookup (key_of args) w)) ∷ []), w)
    else if method == codes "org.kde.KWallet.removeEntry"
    then (ok (int32_value (pos 0) ∷ []), erase (key_of args) w)
    else call args w

abbrev k : KwalletKeyring
k = record { name = codes "kdewallet"; app_id = codes "keyring"; folder = codes "keyring" }

abbrev is_open : Memory → ℤ → Bool
is_open w h = is_seven h

abbrev content : Memory → Bytes → Option Bytes
content w key = lookup key w

bus-IsWallet : (w : Memory) → IsWallet bus k is_open content w
unfolding bus call list_eq nat_eq
bus-IsWallet w = record {
  is_open_result = λ h. refl;
  handle = pos 7;
  opened = w;
  open_result = refl;
  open_handle = refl;
  open_content = λ j. refl;
  read_result = λ h key o. refl;
  names = keys_of w;
  names_complete = λ j. contains-keys_of w j;
  list_result = λ h o. refl;
  written = λ key value. insert key value w;
  write_result = λ h key value o. refl;
  write_content = λ key value j. lookup-insert key j value w;
  removed = λ key. erase key w;
  status = λ key. pos 0;
  remove_result = λ h key o. refl;
  remove_content = λ key j. lookup-erase key j w;
}

abbrev nothing_stored : Object ℤ Memory
nothing_stored = record { fields = pos 0; world = [] }

abbrev texts_of : Object ℤ Memory → Bytes → Option Bytes
texts_of = texts bus item_texts k is_open content bus-IsWallet

locked_answer : List Value → List Value
locked_answer (int32_value h ∷ []) = bool_value false ∷ []
locked_answer (text_value name ∷ args) = int32_value (negsuc 0) ∷ []
locked_answer args = int32_value (negsuc 0) ∷ []

locked : Bus Memory
unfolding locked_answer
locked method args w =
    if method == codes "org.kde.KWallet.readEntry"
    then (ok (bytes_value [] ∷ []), w)
    else (ok (locked_answer args), w)

locked-RefusesToOpen : RefusesToOpen locked k (pos 0) []
unfolding locked locked_answer list_eq nat_eq
locked-RefusesToOpen = record {
  is_open_result = refl;
  open_result = refl;
  read_result = λ key. refl;
  status = negsuc 0;
  write_result = λ key value. refl;
  remove_result = λ key. refl;
}

refused_wallet_example :
    ((get locked item_texts k (codes "x") nothing_stored).0 ≡ err (sentinel err_key_not_found))
    × (set locked item_texts k (plain_item (codes "x") (5 ∷ [])) nothing_stored
        ≡ (ok tt, record { fields = negsuc 0; world = [] }))
    × (remove locked item_texts k (codes "x") nothing_stored
        ≡ (ok tt, record { fields = negsuc 0; world = [] }))
refused_wallet_example =
    refused_wallet locked item_texts k nothing_stored (plain_item (codes "x") (5 ∷ [])) (codes "x")
      (text_of (plain_item (codes "x") (5 ∷ []))) locked-RefusesToOpen refl
