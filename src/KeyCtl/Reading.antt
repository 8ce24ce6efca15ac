-- ===== src/KeyCtl/Reading.antt =====
-- How `keyctlRead` (keyctl.go) finds the size of its buffer.
use keyring.Prelude.{
  first_bytes, ℕ, zero, suc, ◌≡◌, refl, ltb, true, false, Bytes, length, arith, Bool-cases, inl,
  inr,
}
use keyring.Exec.{ok}
use keyring.KeyCtl.{read_loop, read}
use keyring.KeyCtl.Syscalls.{Kernel, Serial}

module _ {W : Type 0} (kernel : Kernel W) where
  -- A call with a buffer of that size reads this content, all of it if the buffer is large enough.
  pub record Reads (id : Serial) (content : Bytes) (size : ℕ) (w : W) : Type 0 where
    pub buffer : Bytes
    pub result : (kernel.keyctl_read id size w).0 ≡ ok (length content, buffer)
    pub fills : ltb size (length content) ≡ false → first_bytes (length content) buffer ≡ content

  last_read :
      (n : ℕ) (id : Serial) (content : Bytes) (size : ℕ) (w : W)
      → Reads id content size w
      → ltb size (length content) ≡ false
      → read_loop kernel (suc n) id size w ≡ (ok content, (kernel.keyctl_read id size w).1)
  unfolding read_loop
  last_read n id content size w r fits = ground (arith, r.result, r.fills fits)

  next_read :
      (n : ℕ) (id : Serial) (content : Bytes) (size : ℕ) (w : W)
      → Reads id content size w
      → ltb size (length content) ≡ true
      → read_loop kernel (suc n) id size w
        ≡ read_loop kernel n id (length content) (kernel.keyctl_read id size w).1
  unfolding read_loop
  next_read n id content size w r small = ground (arith, r.result)

  same_fits : (n : ℕ) → ltb n n ≡ false
  same_fits zero = refl
  same_fits (suc n) = same_fits n

  -- Two calls are enough for a key that does not change between them: the first tells its length.
  -- The state is then the one behind the first or behind the second.
  pub read_twice :
      (n : ℕ) (id : Serial) (content : Bytes) (w : W)
      → Reads id content 0 w
      → Reads id content (length content) (kernel.keyctl_read id 0 w).1
      → (read kernel (suc (suc n)) id w).0 ≡ ok content
  unfolding read
  read_twice n id content w r s = elim (Bool-cases (ltb 0 (length content))) [
    | inl h ↦
        rw
          (
            next_read (suc n) id content 0 w r h,
            last_read n id content (length content) _ s (same_fits (length content)),
          )
          refl
    | inr h ↦ rw (last_read (suc n) id content 0 w r h) refl
  ]
