-- ===== src/KeyCtl.antt =====
-- keyctl.go: items as keys of type "user" in a keyring of the Linux kernel. An int32 is the number
-- that its 32 bits make.
pub mod Syscalls
pub mod Permissions
pub mod Description
pub mod Reading
pub mod Ring
pub mod Moving
pub mod Describing
use keyring.Prelude.{
  first_bytes, ℕ, zero, suc, ltb, String, Bytes, codes, List, [], ◌∷◌, is_empty, not, ◌==◌, list_eq,
  nat_eq, if◌then◌else◌,
}
use keyring.Errors.{
  Error, sentinel, message, is_errno, err_key_not_found, err_metadata_not_supported,
}
use keyring.Exec.{Exec, Result, ok, err, pure, raise, lift, attempt, on_error, ◌>>=◌, ◌>>◌}
use keyring.Api.{Item, Metadata, Keyring, Config, plain_item}
use keyring.Dict.{Dict}
use keyring.KeyCtl.Description.{described, field_of, convert_key_buffer}
use keyring.KeyCtl.Syscalls.{Serial, Kernel, enokey, int32}

pub record KeyctlKeyring : Type 0 where
  pub ring : Serial
  pub perm : ℕ

abbrev pub user_type : Bytes
user_type = codes "user"

module _ {W : Type 0} (kernel : Kernel W) where
  pub keyring_for_scope : Bytes → Result Serial
  keyring_for_scope scope =
      if scope == codes "user"
      then ok kernel.user_keyring
      else if scope == codes "usersession"
      then ok kernel.user_session_keyring
      else if scope == codes "group"
      then err (message "scope %q not yet implemented")
      else if scope == codes "session"
      then ok kernel.session_keyring
      else if scope == codes "process"
      then ok kernel.process_keyring
      else if scope == codes "thread"
      then ok kernel.thread_keyring
      else err (message "unknown scope %q")

  -- `GetKeyringIDForScope`, which converts the result of a failed call too.
  pub keyring_id_for_scope : Bytes → Exec W Serial
  keyring_id_for_scope scope = do
    ring_ref ← lift (keyring_for_scope scope)
    id ← kernel.get_keyring_id ring_ref
    pure (int32 id)

  pub add : Serial → Bytes → Bytes → Bytes → Exec W Serial
  add parent key_type key content = do
    id ← kernel.add_key key_type key content parent
    pure (int32 id)

  pub search_key : Serial → Bytes → Bytes → Exec W Serial
  search_key id id_type name = do key ← kernel.keyctl_search id id_type name; pure (int32 key)

  -- The loop of `keyctlRead`, from a buffer of some size. It goes on for as long as the key grows
  -- between two calls, so it is given a number of calls after which the model gives up.
  read_loop : ℕ → Serial → ℕ → Exec W Bytes
  unfolding first_bytes
  read_loop zero id size = raise (message "keyctlRead has not returned")
  read_loop (suc calls) id size = do
    (length', buffer) ← kernel.keyctl_read id size
    (λ w.
        let again = read_loop calls id length' w in
        if ltb size length' then again else (ok (first_bytes length' buffer), w))

  pub read : ℕ → Serial → Exec W Bytes
  unfolding read_loop
  read calls id = read_loop calls id 0

  pub describe : Serial → Exec W (Dict Bytes)
  unfolding described
  describe id = do description ← kernel.keyctl_describe id; pure (described description)

  -- Through the session keyring: the key that `first` made there is given its permissions and
  -- moved.
  move : String → String → Serial → ℕ → Serial → Exec W Unit
  move linking unlinking target perm key = do
    on_error (λ e. message "setting permission 0x%x failed: %v") (kernel.setperm key perm)
    on_error (λ e. message linking) (kernel.link key target)
    on_error (λ e. message unlinking) (kernel.unlink key kernel.session_keyring)

  pub create_named_keyring : KeyctlKeyring → Serial → Bytes → Exec W Serial
  unfolding add move
  create_named_keyring k parent name =
      if k.perm == 0 then add parent (codes "keyring") name [] else do
        ring ←
            on_error (λ e. message "creating keyring failed: %v")
              (add kernel.session_keyring (codes "keyring") name [])
        move "linking keyring failed: %v" "unlinking keyring from session failed: %v" k.ring k.perm
            ring
        pure ring

  or_create_ring : KeyctlKeyring → Serial → Bytes → Result Serial → Exec W Serial
  unfolding create_named_keyring
  or_create_ring k parent name (ok named) = pure named
  or_create_ring k parent name (err e) =
      if not (is_errno e enokey)
      then raise (message "opening named %q keyring failed: %v")
      else on_error (λ f. message "creating named %q keyring failed: %v")
          (create_named_keyring k parent name)

  -- The opener in `init`.
  pub open_key_ctl : Config W → Exec W KeyctlKeyring
  unfolding or_create_ring
  open_key_ctl cfg = do
    parent ←
        on_error (λ e. message "accessing %q keyring failed: %v")
          (lift (keyring_for_scope cfg.key_ctl_scope))
    (if is_empty cfg.service_name
        then pure (record { ring = parent; perm = cfg.key_ctl_perm })
        else do
          r ← attempt (search_key parent (codes "keyring") cfg.service_name)
          named ←
              or_create_ring (record { ring = parent; perm = cfg.key_ctl_perm }) parent
                cfg.service_name r
          pure (record { ring = named; perm = cfg.key_ctl_perm }))

  get_error : Error → Error
  get_error e = if is_errno e enokey then sentinel err_key_not_found else e

  module _ (calls : ℕ) (native : ℕ → ℕ → ℕ → ℕ → Serial) (k : KeyctlKeyring) where
    pub get : Bytes → Exec W Item
    unfolding get_error search_key read
    get name = do
      key ← on_error get_error (search_key k.ring user_type name)
      content ← read calls key
      pure (plain_item name content)

    pub get_metadata : Bytes → Exec W Metadata
    get_metadata name = raise (sentinel err_metadata_not_supported)

    pub set : Item → Exec W Unit
    unfolding add move
    set item =
        if k.perm == 0 then (do added ← add k.ring user_type item.key item.content; pure tt) else do
          key ←
              on_error (λ e. message "adding key to session failed: %v")
                (add kernel.session_keyring user_type item.key item.content)
          move "linking key to keyring failed: %v" "unlinking key from session failed: %v" k.ring
              k.perm key

    -- Whatever the error of the search is.
    pub remove : Bytes → Exec W Unit
    unfolding search_key
    remove name = do
      key ← on_error (λ e. sentinel err_key_not_found) (search_key k.ring user_type name)
      kernel.unlink key k.ring

    describe_all : List Serial → Exec W (List Bytes)
    unfolding describe field_of
    describe_all [] = pure []
    describe_all (id ∷ ids) = do
      info ← describe id
      results ← describe_all ids
      pure (
          if field_of (codes "type") info == user_type
          then field_of (codes "description") info ∷ results
          else results)

    pub keys : Exec W (List Bytes)
    unfolding describe_all read convert_key_buffer
    keys = do
      content ← on_error (λ e. message "reading keyring failed: %v") (read calls k.ring)
      ids ←
          on_error (λ e. message "converting raw keylist failed: %v")
            (lift (convert_key_buffer native content))
      describe_all ids

    abbrev pub key_ctl_ring : Keyring W
    key_ctl_ring = record {
      get = get;
      get_metadata = get_metadata;
      set = set;
      remove = remove;
      keys = keys;
    }
