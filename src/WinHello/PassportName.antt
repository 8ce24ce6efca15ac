-- ===== src/WinHello/PassportName.antt =====
-- winhello/passport_name.go: the name of the Passport key.
use keyring.Prelude.{
  ℕ, Bytes, codes, Bool, true, List, [], ◌∷◌, ◌++◌, contains, is_empty, list_eq, nat_eq, ◌||◌, ◌&&◌,
  if◌then◌else◌,
}
use keyring.Errors.{
  sentinel, wrapf, wrapf_both, err_passport_logical_name, err_passport_current_user,
}
use keyring.Exec.{Exec, Result, ok, err, lift, on_error, ◌>>=◌, ◌>>◌}

-- `unicode.IsSpace`, on the decoded runes of a text.
pub record Unicode : Type 0 where
  pub runes : Bytes → List ℕ
  pub is_space : ℕ → Bool

-- Every rune is white space: then `strings.TrimSpace` leaves nothing.
all_space : (ℕ → Bool) → List ℕ → Bool
all_space is_space [] = true
all_space is_space (r ∷ rs) = is_space r && all_space is_space rs

pub is_blank : Unicode → Bytes → Bool
unfolding all_space
is_blank u s = all_space u.is_space (u.runes s)

pub validate_logical_name : Unicode → Bytes → Result (Unit {0})
validate_logical_name u logical_name =
    if is_blank u logical_name
    then err (sentinel err_passport_logical_name)
    else if contains logical_name b'/' || contains logical_name b'\\'
    then err (wrapf "%w: %q contains path separator" (sentinel err_passport_logical_name))
    else ok tt

after_user : Bytes → Bytes → Result Bytes
after_user logical_name uid =
    if is_empty uid
    then err (sentinel err_passport_current_user)
    else ok (
        uid
        ++ (codes "//"
            ++ (codes "ByteNess"
                ++ (codes "/" ++ (codes "keyring-winhello" ++ (codes "/" ++ logical_name))))))

module _ {W : Type 0} (u : Unicode) (current_user : Exec W Bytes) where
  -- `current_user` is `user.Current`, down to the Uid.
  pub passport_key_name : Bytes → Exec W Bytes
  unfolding after_user
  passport_key_name logical_name = do
    lift (validate_logical_name u logical_name)
    uid ← on_error (wrapf_both "%w: %w" (sentinel err_passport_current_user)) current_user
    lift (after_user logical_name uid)
