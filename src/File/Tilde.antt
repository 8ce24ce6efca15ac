-- ===== src/File/Tilde.antt =====
-- tilde.go: the home directory in paths.
use keyring.Prelude.{
  ℕ, Bytes, codes, List, [], ◌∷◌, ◌++◌, has_prefix, ◌==◌, nat_eq, Bool, if◌then◌else◌,
}
use keyring.Exec.{Exec, pure, ◌>>=◌}
use keyring.File.System.{System}

-- `tildePrefixes`.
unfoldable pub tilde_prefixes : Bool → ℕ → List Bytes
tilde_prefixes on_windows separator =
    let native = b'~' ∷ separator ∷ [] in
    if on_windows then native ∷ codes "~/" ∷ [] else native ∷ []

-- `strings.Replace(dir, "~", homeDir, 1)`.
unfoldable pub replace_tilde : Bytes → Bytes → Bytes
replace_tilde home [] = []
replace_tilde home (c ∷ dir) =
    let rest = replace_tilde home dir in if c == b'~' then home ++ dir else c ∷ rest

module _ {W : Type 0} (system : System W) where
  unfoldable pub expand_first : List Bytes → Bytes → Exec W Bytes
  unfolding replace_tilde
  expand_first [] dir = pure dir
  expand_first (prefix ∷ prefixes) dir =
      if has_prefix dir prefix
      then (do home ← system.user_home_dir; pure (replace_tilde home dir))
      else expand_first prefixes dir

  unfoldable pub expand_tilde : Bytes → Exec W Bytes
  unfolding expand_first tilde_prefixes
  expand_tilde dir = expand_first (tilde_prefixes system.on_windows system.separator) dir
