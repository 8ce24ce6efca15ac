-- ===== src/KWallet/Calls.antt =====
-- kwallet.go: calls of KWallet over D-Bus, and what their answers are asserted to be.
use keyring.Prelude.{Bool, Bytes, codes, List, [], ◌∷◌}
use keyring.Prelude.Int.{ℤ}
use keyring.Errors.{message}
use keyring.Exec.{Exec, Result, ok, err, pure, lift, ◌>>=◌}

-- The values that D-Bus carries to KWallet and back.
pub data Value : Type 0 where
  bool_value : Bool → Value
  int32_value : ℤ → Value
  int64_value : ℤ → Value
  text_value : Bytes → Value
  list_value : List Bytes → Value
  bytes_value : Bytes → Value

-- `Call(method, 0, args...)` of the object org.kde.kwalletd5: the body of the answer, or `call.Err`.
abbrev pub Bus : Type 0 → Type 0
Bus W = Bytes → List Value → Exec W (List Value)

-- `call.Body[0].(bool)`, and for other types: any other body is a panic.
abbrev pub as_bool : List Value → Result Bool
as_bool (bool_value b ∷ body) = ok b
as_bool body = err (message "interface conversion")

abbrev pub as_int32 : List Value → Result ℤ
as_int32 (int32_value n ∷ body) = ok n
as_int32 body = err (message "interface conversion")

abbrev pub as_strings : List Value → Result (List Bytes)
as_strings (list_value l ∷ body) = ok l
as_strings body = err (message "interface conversion")

abbrev pub as_bytes : List Value → Result Bytes
as_bytes (bytes_value b ∷ body) = ok b
as_bytes body = err (message "interface conversion")

module _ {W : Type 0} (bus : Bus W) where
  unfoldable pub wallet_is_open : ℤ → Exec W Bool
  wallet_is_open handle = do
    body ← bus (codes "org.kde.KWallet.isOpen") (int32_value handle ∷ [])
    lift (as_bool body)

  unfoldable pub wallet_open : Bytes → ℤ → Bytes → Exec W ℤ
  wallet_open name w_id appid = do
    body ←
        bus (codes "org.kde.KWallet.open")
          (text_value name ∷ int64_value w_id ∷ text_value appid ∷ [])
    lift (as_int32 body)

  unfoldable pub entry_list : ℤ → Bytes → Bytes → Exec W (List Bytes)
  entry_list handle folder appid = do
    body ←
        bus (codes "org.kde.KWallet.entryList")
          (int32_value handle ∷ text_value folder ∷ text_value appid ∷ [])
    lift (as_strings body)

  unfoldable pub write_entry : ℤ → Bytes → Bytes → Bytes → Bytes → Exec W Unit
  write_entry handle folder key value appid = do
    body ← bus (codes "org.kde.KWallet.writeEntry") (
        int32_value handle
        ∷ text_value folder
        ∷ text_value key
        ∷ bytes_value value
        ∷ text_value appid
        ∷ [])
    pure tt

  unfoldable pub remove_entry : ℤ → Bytes → Bytes → Bytes → Exec W Unit
  remove_entry handle folder key appid = do
    body ←
        bus (codes "org.kde.KWallet.removeEntry")
          (int32_value handle ∷ text_value folder ∷ text_value key ∷ text_value appid ∷ [])
    pure tt

  unfoldable pub read_entry : ℤ → Bytes → Bytes → Bytes → Exec W Bytes
  read_entry handle folder key appid = do
    body ←
        bus (codes "org.kde.KWallet.readEntry")
          (int32_value handle ∷ text_value folder ∷ text_value key ∷ text_value appid ∷ [])
    lift (as_bytes body)
