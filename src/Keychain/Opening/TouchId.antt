-- ===== src/Keychain/Opening/TouchId.antt =====
-- Unlocking by Touch ID (keychain_macos.go).
use keyring.Prelude.{◌≡◌, refl, codes, true, false, none, some, [], ◌∷◌, ◌++◌}
use keyring.Errors.{Error, message}
use keyring.Exec.{ok, err}
use keyring.Keychain.Library.{Attributes, QueryResult, Library, one}
use keyring.Keychain.{of_account}
use keyring.Keychain.Opening.{
  MacKeychain, touch_id_label, unlock_with, stored_passphrases, unless_query_failed, authenticated,
  open_with_touch_id,
}

module _ {W : Type 0} (library : Library W) (k : MacKeychain W) where
  -- The query for the passphrase.
  unfoldable pub passphrase_query : Attributes
  unfolding touch_id_label
  passphrase_query = record (of_account k.touch_id_service k.touch_id_account) {
    label = some (touch_id_label library k);
    match_limit = some one;
    return_data = true;
  }

  -- Where the user is recognised but the stored passphrase does not unlock the keychain, opening it
  -- is an error, and opening it once more hands it out with no call of the system, locked as it is.
  pub open_with_touch_id_fails :
      (w w₁ w₂ w₃ : W) (r : QueryResult) (e : Error)
      → library.authenticate (codes "unlock " ++ k.path) w ≡ (ok tt, w₁)
      → library.query_item passphrase_query w₁ ≡ ((r ∷ [], none), w₂)
      → library.unlock_at_path k.path r.content w₂ ≡ (err e, w₃)
      → (open_with_touch_id library k (record { fields = false; world = w })
          ≡ (err (message "failed to unlock keychain: %v"), record { fields = true; world = w₃ }))
        × (open_with_touch_id library k (record { fields = true; world = w₃ })
            ≡ (ok k.path, record { fields = true; world = w₃ }))
  unfolding open_with_touch_id authenticated stored_passphrases unless_query_failed unlock_with
      passphrase_query
  open_with_touch_id_fails w w₁ w₂ w₃ r e recognised stored locked =
      (rw (recognised, stored, locked) refl, refl)
