-- ===== src/File/RoundTrip.antt =====
-- `Set`, `Get` and `Remove` of the file backend (file.go) over a file system.
use keyring.Prelude.{
  ◌≡◌, ◌≢◌, ◌⊎◌, inl, inr, refl, sym, ap, ◌∙◌, Bytes, codes, true, false, Option, Option-cases,
  none, some, List, [], ◌∷◌, is_empty, has_prefix, ==_refl, ◌==◌, list_eq, nat_eq, arith,
  if◌then◌else◌,
}
use keyring.Errors.{Error, sentinel, err_key_not_found}
use keyring.Exec.{Result, ok, err, continue, lift}
use keyring.Exec.Pure.{◌>>=◌}
use keyring.Exec.Object.{Object}
use keyring.Api.{Item, ItemCodec}
use keyring.Prompts.{fixed_string_prompt}
use keyring.Stored.{WritesItems}
use keyring.File.System.{Codecs}
use keyring.File.System.{System as FileSystem}
use keyring.File.Tilde.{tilde_prefixes, replace_tilde, expand_first, expand_tilde}
use keyring.File.{
  FileKeyring, filename_escape, is_other_file, missing, directory_made, resolve_dir, ask, unlock,
  filename, not_found, get, set, remove,
}
use keyring.File.Assumed.{is_file_name, IsFileSystem}

-- The directory that a prefix in front of it makes.
abbrev pub expanded : Bytes → List Bytes → Bytes → Bytes
expanded home [] dir = dir
expanded home (p ∷ prefixes) dir =
    if has_prefix dir p then replace_tilde home dir else expanded home prefixes dir

expand_first_run :
    {W : Type 0} (system : FileSystem W) (home : Bytes) (w : W) (prefixes : List Bytes)
    (dir : Bytes)
    → system.user_home_dir w ≡ (ok home, w)
    → expand_first system prefixes dir w ≡ (ok (expanded home prefixes dir), w)
unfolding expand_first
expand_first_run system home w [] dir h = refl
expand_first_run system home w (p ∷ prefixes) dir h =
    ground (arith, h, expand_first_run system home w prefixes dir h)

module _ {W : Type 0} (system : FileSystem W) (codecs : Codecs W) (json : ItemCodec) (dir : Bytes)
    (home password : Bytes) (absent : Error) (content : W → Bytes → Option Bytes) where
  abbrev pub k : FileKeyring W
  k = record { dir = dir; password_func = some (fixed_string_prompt password) }

  abbrev pub root : Bytes
  root = expanded home (tilde_prefixes system.on_windows system.separator) dir

  abbrev pub path : Bytes → Bytes
  path key = system.join root (filename_escape system codecs json k key)

  -- What file.go relies on of the paths, the codecs and its own configuration.
  pub record Sound (text : Item → Bytes) (kept : Item → Item) : Type 0 where
    pub dir_given : is_empty dir ≡ false
    pub password_given : is_empty password ≡ false
    pub absent_missing : system.is_not_exist absent ≡ true
    pub decode_encode :
        (s : Bytes) → codecs.percent_decode (codecs.percent_encode s (codes "/")) ≡ s
    pub join_apart :
        (m n : Bytes)
        → is_file_name system.separator m ≡ true
        → is_file_name system.separator n ≡ true
        → system.join root m ≡ system.join root n
        → m ≡ n
    pub writes : WritesItems json text kept
    pub files : (w : W) → IsFileSystem system codecs home root password absent content w

  module _ (text : Item → Bytes) (kept : Item → Item) (sound : Sound text kept) where
    abbrev State : Type 0
    State = Object Bytes W

    resolve_dir_run : (w : W) → resolve_dir system codecs json k w ≡ (ok root, w)
    unfolding resolve_dir expand_tilde directory_made missing is_other_file
    resolve_dir_run w =
        let f = sound.files w in
        rw
          (
            sound.dir_given,
            expand_first_run system home w (tilde_prefixes system.on_windows system.separator) dir
                f.home_result,
            f.root_result,
          )
          refl

    filename_run : (key : Bytes) (w : W) → filename system codecs json k key w ≡ (ok (path key), w)
    unfolding filename
    filename_run key w = rw (resolve_dir_run w) refl

    -- No password yet, or the one that the prompt gives.
    abbrev pub HasPassword : State → Type 0
    HasPassword o = (o.fields ≡ []) ⊎ (o.fields ≡ password)

    unlock_run :
        (o : State)
        → HasPassword o
        → unlock system codecs json k o ≡ (ok tt, record o { fields = password })
    unfolding unlock ask
    unlock_run o (inl e) = rw (resolve_dir_run o.world, e) refl
    unlock_run o (inr e) = rw (resolve_dir_run o.world, e, sound.password_given) refl

    -- What `Get` makes of the bytes of a file.
    abbrev answer : Option Bytes → Result Item
    answer none = err (sentinel err_key_not_found)
    answer (some b) = codecs.jose_decode b password >>= json.decode

    get_run :
        (key : Bytes) (o : State)
        → HasPassword o
        → (get system codecs json k key o).0 ≡ answer (content o.world (path key))
    unfolding get not_found
    get_run key o h = elim (Option-cases (content o.world (path key))) [
      | inl e ↦
          rw
            (
              filename_run key o.world,
              (sound.files o.world).read_result (path key),
              e,
              sound.absent_missing,
            )
            refl
      | inr (b, e) ↦
          rw
            (
              filename_run key o.world,
              (sound.files o.world).read_result (path key),
              e,
              unlock_run o h,
            )
            (decoded_payload (codecs.jose_decode b password) (record o { fields = password }))
    ]
      where
        decoded_payload :
            (r : Result Bytes) (o : State)
            → (continue r (λ payload. lift (json.decode payload)) o).0 ≡ (r >>= json.decode)
        decoded_payload (ok payload) o = refl
        decoded_payload (err e) o = refl

    -- What a successful run of `Set` leaves.
    record AfterSet (i : Item) (o o' : State) : Type 0 where
      run : set system codecs json k i o ≡ (ok tt, o')
      fields : o'.fields ≡ password
      token : Bytes
      reads : answer (some token) ≡ ok (kept i)
      files :
          (q : Bytes)
          → content o'.world q ≡ (if path i.key == q then some token else content o.world q)

    set_run : (i : Item) (o : State) → HasPassword o → (o' : State) × AfterSet i o o'
    unfolding set
    set_run i o h =
        let f = sound.files o.world in
        let g = sound.files f.later in
        let payload = text i in
        let v = g.drawn payload f.created in
        let f' = sound.files v in
        (
          record { fields = password; world = f'.written (path i.key) (g.token payload f.created) },
          record {
            run =
                rw (sound.writes.encode_result i, unlock_run o h, f.now_result)
                  (rw (g.encrypt_result payload f.created) (
                    rw
                      (
                        filename_run i.key v,
                        f'.write_result (path i.key) (g.token payload f.created),
                      )
                      refl));
            fields = refl;
            token = g.token payload f.created;
            reads = rw (g.decode_token payload f.created) (sound.writes.decode_text i);
            files = λ q. ground (
              arith,
              f'.write_content (path i.key) (g.token payload f.created) q,
              g.encrypt_content payload f.created q,
              f.now_content q,
            );
          },
        )

    path-injective :
        (i j : Bytes)
        → is_file_name system.separator (filename_escape system codecs json k i) ≡ true
        → is_file_name system.separator (filename_escape system codecs json k j) ≡ true
        → path i ≡ path j
        → i ≡ j
    unfolding filename_escape
    path-injective i j hi hj h =
        sym (sound.decode_encode i)
        ∙ ap codecs.percent_decode (sound.join_apart _ _ hi hj h)
        ∙ sound.decode_encode j

    remove_run :
        (key b : Bytes) (o : State)
        → content o.world (path key) ≡ some b
        → remove system codecs json k key o
          ≡ (ok tt, record o { world = (sound.files o.world).removed (path key) })
    unfolding remove
    remove_run key b o h =
        rw (filename_run key o.world, (sound.files o.world).remove_result (path key) b h) refl

    apart : (p q : Bytes) → p ≢ q → (p == q) ≡ false
    apart p q n = ground arith

    -- With one password and files that are read as they were written, after a `Set` of an item
    -- `Get` returns what JSON keeps of it, and what it did of any other key before, and once the
    -- item is removed it is `ErrKeyNotFound`. The two keys are escaped to names of files in the
    -- directory.
    pub files_get-set :
        (i : Item) (j : Bytes) (o : State)
        → HasPassword o
        → is_file_name system.separator (filename_escape system codecs json k i.key) ≡ true
        → is_file_name system.separator (filename_escape system codecs json k j) ≡ true
        → i.key ≢ j
        → ((set system codecs json k i o).0 ≡ ok tt)
          × ((get system codecs json k i.key (set system codecs json k i o).1).0 ≡ ok (kept i))
          × ((get system codecs json k j (set system codecs json k i o).1).0
              ≡ (get system codecs json k j o).0)
          × ((get system codecs json k i.key
                (remove system codecs json k i.key (set system codecs json k i o).1).1).0
              ≡ err (sentinel err_key_not_found))
    files_get-set i j o h hi hj differ =
        let (o', s) = set_run i o h in
        let h' : HasPassword o' = inr s.fields in
        let other : (path i.key == path j) ≡ false =
          apart (path i.key) (path j) (λ e. differ (path-injective i.key j hi hj e)) in
        let there : content o'.world (path i.key) ≡ some s.token =
          s.files (path i.key) ∙ rw (==_refl (path i.key)) refl in
        rw (s.run) (
          refl,
          get_run i.key o' h' ∙ rw there s.reads,
          get_run j o' h' ∙ ap answer (s.files (path j) ∙ rw other refl) ∙ sym (get_run j o h),
          rw (remove_run i.key s.token o' there) (
              get_run i.key (record o' { world = (sound.files o'.world).removed (path i.key) }) h'
              ∙ rw
                  (
                    (sound.files o'.world).remove_content (path i.key) (path i.key),
                    ==_refl (path i.key),
                  )
                  refl),
        )
