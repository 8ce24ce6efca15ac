-- ===== src/KeyCtl/Ring.antt =====
-- `Get`, `Set` and `Remove` of the kernel keyring backend (keyctl.go) with the default permissions.
use mathlib.Core.Option
use keyring.Prelude.{
  ℕ, suc, ◌≡◌, ◌∙◌, not, ◌&&◌, Bytes, Option, none, some, Option-cases, inl, inr, is_some, length,
  arith, ◌==◌, list_eq, nat_eq, if◌then◌else◌,
}
use keyring.Errors.{Error, errno, sentinel, err_key_not_found, is_errno}
use keyring.Exec.{Result, ok, err, found}
use keyring.Api.{Item, plain_item}
use keyring.Contract.{accepted}
use keyring.KeyCtl.{KeyctlKeyring, user_type, get, set, remove, get_error, add, search_key}
use keyring.KeyCtl.Syscalls.{Kernel, Serial, int32, enokey}
use keyring.KeyCtl.Reading.{Reads, read_twice}

abbrev pub searched : Option (Serial × Bytes) → Result Serial
searched none = err (errno enokey)
searched (some (s, p)) = ok s

abbrev pub given : Option Error → Serial → Result Serial
given none s = ok s
given (some e) s = err e

-- In the state `w` the ring holds these user keys, each with its serial and its payload, and no
-- ring within it.
pub record HoldsKeys {W : Type 0} (kernel : Kernel W) (ring : Serial)
    (content : W → Bytes → Option (Serial × Bytes)) (refused : Item → Option Error) (w : W)
    : Type 0 where
  pub search_result :
      (d : Bytes) → (kernel.keyctl_search ring user_type d w).0 ≡ searched (content w d)
  pub search_content :
      (d j : Bytes) → content (kernel.keyctl_search ring user_type d w).1 j ≡ content w j
  pub serial_fits : (d p : Bytes) (s : Serial) → content w d ≡ some (s, p) → int32 s ≡ s
  pub reads :
      (d p : Bytes) (s : Serial) (size : ℕ) → content w d ≡ some (s, p) → Reads kernel s p size w
  pub read_content :
      (s : Serial) (size : ℕ) (j : Bytes) → content (kernel.keyctl_read s size w).1 j ≡ content w j
  pub added : Item → Serial
  pub add_result :
      (i : Item) → (kernel.add_key user_type i.key i.content ring w).0 ≡ given (refused i) (added i)
  pub add_content :
      (i : Item) (j : Bytes)
      → content (kernel.add_key user_type i.key i.content ring w).1 j ≡ (
          if not (is_some (refused i)) && i.key == j
          then some (added i, i.content)
          else content w j)
  pub unlink_result :
      (d p : Bytes) (s : Serial) → content w d ≡ some (s, p) → (kernel.unlink s ring w).0 ≡ ok tt
  pub unlink_content :
      (d p : Bytes) (s : Serial) (j : Bytes)
      → content w d ≡ some (s, p)
      → content (kernel.unlink s ring w).1 j ≡ (if d == j then none else content w j)

module _ {W : Type 0} (kernel : Kernel W) (native : ℕ → ℕ → ℕ → ℕ → Serial) (n : ℕ)
    (k : KeyctlKeyring) (content : W → Bytes → Option (Serial × Bytes))
    (refused : Item → Option Error)
    (holds : (w : W) → HoldsKeys kernel k.ring content refused w) where
  abbrev pub view : W → Bytes → Option Item
  view w key = Option.map (λ (x : Serial × Bytes). plain_item key x.1) (content w key)

  -- The state behind the search.
  abbrev behind : Bytes → W → W
  behind key w = (kernel.keyctl_search k.ring user_type key w).1

  get_present :
      (key p : Bytes) (s : Serial) (w : W)
      → content w key ≡ some (s, p)
      → (get kernel (suc (suc n)) native k key w).0 ≡ ok (plain_item key p)
  unfolding get search_key
  get_present key p s w h =
      let w₁ = behind key w in
      let h₁ : content w₁ key ≡ some (s, p) = (holds w).search_content key key ∙ h in
      let w₂ = (kernel.keyctl_read s 0 w₁).1 in
      let h₂ : content w₂ key ≡ some (s, p) = (holds w₁).read_content s 0 key ∙ h₁ in
      ground (
        arith,
        h,
        (holds w).search_result key,
        (holds w).serial_fits key p s h,
        read_twice kernel n s p w₁ ((holds w₁).reads key p s 0 h₁)
            ((holds w₂).reads key p s (length p) h₂),
      )

  get_absent :
      (key : Bytes) (w : W)
      → content w key ≡ none
      → (get kernel (suc (suc n)) native k key w).0 ≡ err (sentinel err_key_not_found)
  unfolding get search_key get_error is_errno
  get_absent key w h = ground (arith, h, (holds w).search_result key)

  get_result :
      (key : Bytes) (w : W) → (get kernel (suc (suc n)) native k key w).0 ≡ found (view w key)
  get_result key w = elim (Option-cases (content w key)) [
    | inl h ↦ rw h (get_absent key w h)
    | inr ((s, p), h) ↦ rw h (get_present key p s w h)
  ]

  set_view :
      (i : Item) (j : Bytes) (w : W)
      → k.perm ≡ 0
      → view (set kernel (suc (suc n)) native k i w).1 j ≡ (
          if not (is_some (refused i)) && i.key == j
          then some (plain_item i.key i.content)
          else view w j)
  unfolding set add
  set_view i j w h = ground (arith, (holds w).add_result i, (holds w).add_content i j)

  set_result :
      (i : Item) (w : W)
      → k.perm ≡ 0
      → (set kernel (suc (suc n)) native k i w).0 ≡ accepted (refused i)
  unfolding set add
  set_result i w h = ground (arith, (holds w).add_result i, (holds w).add_content i i.key)

  remove_present :
      (key j p : Bytes) (s : Serial) (w : W)
      → content w key ≡ some (s, p)
      → ((remove kernel (suc (suc n)) native k key w).0 ≡ ok tt)
        × (content (remove kernel (suc (suc n)) native k key w).1 j
            ≡ (if key == j then none else content w j))
  unfolding remove search_key
  remove_present key j p s w h =
      let w₁ = behind key w in
      let h₁ : content w₁ key ≡ some (s, p) = (holds w).search_content key key ∙ h in
      (
        ground (
          arith,
          h,
          (holds w).search_result key,
          (holds w).serial_fits key p s h,
          (holds w₁).unlink_result key p s h₁,
        ),
        ground (
          arith,
          h,
          (holds w).search_result key,
          (holds w).serial_fits key p s h,
          (holds w₁).unlink_content key p s j h₁,
          (holds w).search_content key j,
        ),
      )

  remove_absent :
      (key j : Bytes) (w : W)
      → content w key ≡ none
      → ((remove kernel (suc (suc n)) native k key w).0 ≡ err (sentinel err_key_not_found))
        × (content (remove kernel (suc (suc n)) native k key w).1 j ≡ content w j)
  unfolding remove search_key
  remove_absent key j w h = (
    ground (arith, h, (holds w).search_result key),
    ground (arith, h, (holds w).search_result key, (holds w).search_content key j),
  )

  remove_outcome :
      (key j : Bytes) (w : W)
      → ((remove kernel (suc (suc n)) native k key w).0
          ≡ (if is_some (view w key) then ok tt else err (sentinel err_key_not_found)))
        × (view (remove kernel (suc (suc n)) native k key w).1 j
            ≡ (if key == j then none else view w j))
  remove_outcome key j w = elim (Option-cases (content w key)) [
    | inl h ↦ ground (arith, h, remove_absent key j w h)
    | inr ((s, p), h) ↦ ground (arith, h, remove_present key j p s w h)
  ]

  -- With the default permissions, over a ring that holds user keys and no ring within it: `Get`
  -- returns what is there, its buffer found within two calls; `Set` stores the key and the data, if
  -- the kernel takes them; `Remove` takes one item away, or is `ErrKeyNotFound`. Other items stay.
  pub get-set-remove :
      (i : Item) (key j : Bytes) (w : W)
      → k.perm ≡ 0
      → ((get kernel (suc (suc n)) native k key w).0 ≡ found (view w key))
        × ((set kernel (suc (suc n)) native k i w).0 ≡ accepted (refused i))
        × (view (set kernel (suc (suc n)) native k i w).1 j ≡ (
            if not (is_some (refused i)) && i.key == j
            then some (plain_item i.key i.content)
            else view w j))
        × ((remove kernel (suc (suc n)) native k key w).0
            ≡ (if is_some (view w key) then ok tt else err (sentinel err_key_not_found)))
        × (view (remove kernel (suc (suc n)) native k key w).1 j
            ≡ (if key == j then none else view w j))
  get-set-remove i key j w h = (
    get_result key w,
    set_result i w h,
    set_view i j w h,
    (remove_outcome key j w).0,
    (remove_outcome key j w).1,
  )
