-- ===== src/KeyCtl/Moving.antt =====
-- What `Set` with permissions (keyctl.go) does to a key before the target keyring has it.
use keyring.Prelude.{
  ℕ, String, ◌≡◌, refl, ◌≢◌, Bytes, List, [], ◌∷◌, Bool-cases, inl, inr, ◌==◌, nat_eq, arith,
}
use keyring.Errors.{Error, message}
use keyring.Exec.{Result, ok, err, on_error, rethrow, continue, ◌>>=◌}
use keyring.Api.{Item}
use keyring.KeyCtl.{KeyctlKeyring, user_type, add, move, set}
use keyring.KeyCtl.Syscalls.{Kernel, Serial, int32}

-- The calls that change keys, with their results, the latest first.
pub data Event : Type 0 where
  key_added : Bytes → Bytes → Bytes → Serial → Result ℕ → Event
  perm_set : Serial → ℕ → Result (Unit {0}) → Event
  linked : Serial → Serial → Result (Unit {0}) → Event
  unlinked : Serial → Serial → Result (Unit {0}) → Event

abbrev pub History : Type 0
History = List Event

-- A kernel that answers each call as it likes, from the calls before it.
pub record Answers : Type 0 where
  pub adds : History → Bytes → Bytes → Bytes → Serial → Result ℕ
  pub perms : History → Serial → ℕ → Result (Unit {0})
  pub links : History → Serial → Serial → Result (Unit {0})
  pub unlinks : History → Serial → Serial → Result (Unit {0})
  pub searches : History → Serial → Bytes → Bytes → Result ℕ
  pub reads : History → Serial → ℕ → Result (ℕ × Bytes)
  pub describes : History → Serial → Result Bytes
  pub ring_ids : History → Serial → Result ℕ
  pub spec : ℕ → Serial

unfoldable pub recorded : Answers → Kernel History
recorded a = record {
  thread_keyring = a.spec 1;
  process_keyring = a.spec 2;
  session_keyring = a.spec 3;
  user_keyring = a.spec 4;
  user_session_keyring = a.spec 5;
  add_key = λ t d p r h. (a.adds h t d p r, key_added t d p r (a.adds h t d p r) ∷ h);
  keyctl_search = λ r t d h. (a.searches h r t d, h);
  keyctl_read = λ s n h. (a.reads h s n, h);
  keyctl_describe = λ s h. (a.describes h s, h);
  get_keyring_id = λ s h. (a.ring_ids h s, h);
  link = λ s r h. (a.links h s r, linked s r (a.links h s r) ∷ h);
  unlink = λ s r h. (a.unlinks h s r, unlinked s r (a.unlinks h s r) ∷ h);
  setperm = λ s p h. (a.perms h s p, perm_set s p (a.perms h s p) ∷ h);
}

-- The key got these permissions right before.
abbrev pub JustSet : Serial → ℕ → History → Type 0
JustSet s p (perm_set k q (ok u) ∷ h) = (k ≡ s) × (q ≡ p)
JustSet s p h = ⊥

-- Each key that was linked into the ring got the permissions right before, and no key was made in
-- the ring itself.
abbrev pub IsCareful : Serial → ℕ → History → Type 0
IsCareful ring p [] = Unit
IsCareful ring p (linked s r x ∷ h) = ((r ≡ ring) → JustSet s p h) × IsCareful ring p h
IsCareful ring p (key_added t d b r x ∷ h) = (r ≢ ring) × IsCareful ring p h
IsCareful ring p (e ∷ h) = IsCareful ring p h

module _ (a : Answers) (k : KeyctlKeyring) where
  abbrev kernel : Kernel History
  kernel = recorded a

  -- The rest of the move behind a link.
  linked-IsCareful :
      (y : String) (s : Serial) (q : Result (Unit {0})) (h : History)
      → IsCareful k.ring k.perm h
      → IsCareful k.ring k.perm
          (continue q
            (λ _. on_error (λ (e : Error). message y) (kernel.unlink s kernel.session_keyring))
            h).1
  unfolding recorded
  linked-IsCareful y s (ok u) h c = c
  linked-IsCareful y s (err e) h c = c

  perm_set-IsCareful :
      (x y : String) (s : Serial) (q : Result (Unit {0})) (h : History)
      → IsCareful k.ring k.perm h
      → IsCareful k.ring k.perm
          (continue
            (rethrow (λ (e : Error). message "setting permission 0x%x failed: %v") q)
            (λ _. on_error (λ (e : Error). message x) (kernel.link s k.ring) >>= λ _.
              on_error (λ (e : Error). message y) (kernel.unlink s kernel.session_keyring))
            (perm_set s k.perm q ∷ h)).1
  unfolding recorded
  perm_set-IsCareful x y s (err e) h c = c
  perm_set-IsCareful x y s (ok u) h c =
      let done =
        on_error (λ (e : Error). message x) (kernel.link s k.ring) (perm_set s k.perm (ok u) ∷ h) in
      linked-IsCareful y s done.0 done.1 ((λ e. (refl, refl)), c)

  move-IsCareful :
      (x y : String) (s : Serial) (h : History)
      → IsCareful k.ring k.perm h
      → IsCareful k.ring k.perm (move kernel x y k.ring k.perm s h).1
  unfolding move recorded
  move-IsCareful x y s h c = perm_set-IsCareful x y s (a.perms h s k.perm) h c

  added-IsCareful :
      (r : Result ℕ) (h : History)
      → IsCareful k.ring k.perm h
      → IsCareful k.ring k.perm
          (continue
            (rethrow
              (λ (e : Error). message "adding key to session failed: %v")
              (continue r (λ id v. (ok (int32 id), v)) h).0)
            (move kernel "linking key to keyring failed: %v" "unlinking key from session failed: %v"
              k.ring k.perm)
            (continue r (λ id v. (ok (int32 id), v)) h).1).1
  added-IsCareful (ok id) h c = move-IsCareful _ _ (int32 id) h c
  added-IsCareful (err e) h c = c

  -- With permissions asked for and a ring that is not the session keyring, `Set` links no key into
  -- the ring that did not get the permissions right before, and makes none in the ring itself,
  -- whatever the kernel answers.
  pub set-IsCareful :
      (calls : ℕ) (native : ℕ → ℕ → ℕ → ℕ → Serial) (i : Item) (h : History)
      → k.perm ≢ 0
      → kernel.session_keyring ≢ k.ring
      → IsCareful k.ring k.perm h
      → IsCareful k.ring k.perm (set kernel calls native k i h).1
  unfolding set add recorded
  set-IsCareful calls native i h asked apart c = elim (Bool-cases (k.perm == 0)) [
    | inl e ↦ absurd (asked (ground (arith, e)))
    | inr e ↦ rw e (added-IsCareful (a.adds h user_type i.key i.content (a.spec 3)) _ (apart, c))
  ]
