-- ===== src/KWallet/Assumed.antt =====
-- What kwallet.go relies on of KWallet.
use keyring.Prelude.{
  ◌≡◌, Bytes, codes, Bool, true, Option, none, some, List, [], ◌∷◌, contains, ◌==◌, list_eq, nat_eq,
  is_some, if◌then◌else◌,
}
use keyring.Prelude.Int.{ℤ, pos}
use keyring.Exec.{ok}
use keyring.KWallet.{KwalletKeyring}
use keyring.KWallet.Calls.{
  Bus, Value, bool_value, int32_value, int64_value, text_value, list_value, bytes_value,
}

abbrev pub entry_text : Option Bytes → Bytes
entry_text none = []
entry_text (some b) = b

abbrev pub text_args : List Bytes → List Value
text_args [] = []
text_args (t ∷ ts) = text_value t ∷ text_args ts

-- What KWallet does for a keyring where nobody refuses anything: asked for it, the user opens the
-- wallet; an open handle reads and writes the entries of the folder; and an entry that is not
-- there reads as no bytes.
pub record IsWallet {W : Type 0} (bus : Bus W) (k : KwalletKeyring) (is_open : W → ℤ → Bool)
    (content : W → Bytes → Option Bytes) (w : W) : Type 0 where
  pub is_open_result :
      (h : ℤ)
      → bus (codes "org.kde.KWallet.isOpen") (int32_value h ∷ []) w
        ≡ (ok (bool_value (is_open w h) ∷ []), w)
  pub handle : ℤ
  pub opened : W
  pub open_result :
      bus
        (codes "org.kde.KWallet.open")
        (text_value k.name ∷ int64_value (pos 0) ∷ text_value k.app_id ∷ [])
        w
      ≡ (ok (int32_value handle ∷ []), opened)
  pub open_handle : is_open opened handle ≡ true
  pub open_content : (j : Bytes) → content opened j ≡ content w j
  pub read_result :
      (h : ℤ) (key : Bytes)
      → is_open w h ≡ true
      → bus
          (codes "org.kde.KWallet.readEntry")
          (int32_value h ∷ text_args (k.folder ∷ key ∷ k.app_id ∷ []))
          w
        ≡ (ok (bytes_value (entry_text (content w key)) ∷ []), w)
  pub names : List Bytes
  pub names_complete : (j : Bytes) → contains names j ≡ is_some (content w j)
  pub list_result :
      (h : ℤ)
      → is_open w h ≡ true
      → bus
          (codes "org.kde.KWallet.entryList")
          (int32_value h ∷ text_args (k.folder ∷ k.app_id ∷ []))
          w
        ≡ (ok (list_value names ∷ []), w)
  -- The status is 0 where it worked.
  pub written : Bytes → Bytes → W
  pub write_result :
      (h : ℤ) (key value : Bytes)
      → is_open w h ≡ true
      → bus
          (codes "org.kde.KWallet.writeEntry")
          (int32_value h
            ∷ text_value k.folder
            ∷ text_value key
            ∷ bytes_value value
            ∷ text_value k.app_id
            ∷ [])
          w
        ≡ (ok (int32_value (pos 0) ∷ []), written key value)
  pub write_content :
      (key value j : Bytes)
      → content (written key value) j ≡ (if key == j then some value else content w j)
  pub removed : Bytes → W
  pub status : Bytes → ℤ
  pub remove_result :
      (h : ℤ) (key : Bytes)
      → is_open w h ≡ true
      → bus
          (codes "org.kde.KWallet.removeEntry")
          (int32_value h ∷ text_args (k.folder ∷ key ∷ k.app_id ∷ []))
          w
        ≡ (ok (int32_value (status key) ∷ []), removed key)
  pub remove_content :
      (key j : Bytes) → content (removed key) j ≡ (if key == j then none else content w j)
