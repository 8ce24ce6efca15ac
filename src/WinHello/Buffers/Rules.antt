-- ===== src/WinHello/Buffers/Rules.antt =====
-- Runs with buffers (winhello/crypto.go) beside runs without, and what they leave of the buffers.
use keyring.Prelude.{
  ◌≡◌, refl, ap, sym, ◌∙◌, Bytes, Bool, true, false, List, [], ◌∷◌, ◌++◌, length, append_assoc,
  append-nil, list_eq, nat_eq, if◌then◌else◌,
}
use keyring.Errors.{Error}
use keyring.Exec.{Exec, Result, ok, err, continue, raise, ◌>>=◌}
use keyring.WinHello.Buffers.{Memory, zero_bytes, buffer_at, with_buffer, within, clearing}

abbrev pub IsZero : Bytes → Type 0
IsZero [] = Unit
IsZero (b ∷ buf) = (b ≡ 0) × IsZero buf

abbrev pub AreZero : List Bytes → Type 0
AreZero [] = Unit
AreZero (buf ∷ bs) = IsZero buf × AreZero bs

zero_bytes-IsZero : (buf : Bytes) → IsZero (zero_bytes buf)
unfolding zero_bytes
zero_bytes-IsZero [] = tt
zero_bytes-IsZero (b ∷ buf) = (refl, zero_bytes-IsZero buf)

pub buffer_at-append :
    (bs : List Bytes) (x : Bytes) (ms : List Bytes) → buffer_at (bs ++ x ∷ ms) (length bs) ≡ x
unfolding buffer_at
buffer_at-append [] x ms = refl
buffer_at-append (b ∷ bs) x ms = buffer_at-append bs x ms

pub with_buffer-append :
    (bs : List Bytes) (x : Bytes) (ms : List Bytes) (y : Bytes)
    → with_buffer (bs ++ x ∷ ms) (length bs) y ≡ bs ++ y ∷ ms
unfolding with_buffer
with_buffer-append [] x ms y = refl
with_buffer-append (b ∷ bs) x ms y = ap (λ (l : List Bytes). b ∷ l) (with_buffer-append bs x ms y)

module _ {W : Type 0} where
  -- A run with buffers beside one without: the same result and world, and all that it made of
  -- buffers behind those of before is zero.
  pub record Clears {A : Type 0} (run : Result A × Memory W) (plain : Result A × W)
      (before : List Bytes) : Type 0 where
    pub result : run.0 ≡ plain.0
    pub world : run.1.world ≡ plain.1
    pub made : List Bytes
    pub left : run.1.buffers ≡ before ++ made
    pub zero : AreZero made

  -- The same but for the first buffer that it made.
  pub record Holds {A : Type 0} (run : Result A × Memory W) (plain : Result A × W)
      (before : List Bytes) : Type 0 where
    pub result : run.0 ≡ plain.0
    pub world : run.1.world ≡ plain.1
    pub first : Bytes
    pub made : List Bytes
    pub left : run.1.buffers ≡ before ++ first ∷ made
    pub zero : AreZero made

  abbrev pub memory : W → List Bytes → Memory W
  memory w bs = record { world = w; buffers = bs }

  module _ {A B : Type 0} where
    Clears-continue :
        (r : Result A) (v : W) (bs : List Bytes) (f : A → Exec (Memory W) B) (g : A → Exec W B)
        → ((a : A) → Clears (f a (memory v bs)) (g a v) bs)
        → Clears (continue r f (memory v bs)) (continue r g v) bs
    Clears-continue (ok a) v bs f g h = h a
    Clears-continue (err e) v bs f g h = record {
      result = refl;
      world = refl;
      made = [];
      left = sym (append-nil bs);
      zero = tt;
    }

    pub Clears-bind :
        (m : Exec W A) (w : W) (bs : List Bytes) (f : A → Exec (Memory W) B) (g : A → Exec W B)
        → ((a : A) (v : W) → Clears (f a (memory v bs)) (g a v) bs)
        → Clears ((within m >>= f) (memory w bs)) ((m >>= g) w) bs
    unfolding within
    Clears-bind m w bs f g h = Clears-continue (m w).0 (m w).1 bs f g (λ a. h a (m w).1)

    Holds-continue :
        (r : Result A) (v : W) (bs : List Bytes) (x : Bytes) (f : A → Exec (Memory W) B)
        (g : A → Exec W B)
        → ((a : A) → Holds (f a (memory v (bs ++ x ∷ []))) (g a v) bs)
        → Holds (continue r f (memory v (bs ++ x ∷ []))) (continue r g v) bs
    Holds-continue (ok a) v bs x f g h = h a
    Holds-continue (err e) v bs x f g h = record {
      result = refl;
      world = refl;
      first = x;
      made = [];
      left = refl;
      zero = tt;
    }

    pub Holds-bind :
        (m : Exec W A) (w : W) (bs : List Bytes) (x : Bytes) (f : A → Exec (Memory W) B)
        (g : A → Exec W B)
        → ((a : A) (v : W) → Holds (f a (memory v (bs ++ x ∷ []))) (g a v) bs)
        → Holds ((within m >>= f) (memory w (bs ++ x ∷ []))) ((m >>= g) w) bs
    unfolding within
    Holds-bind m w bs x f g h = Holds-continue (m w).0 (m w).1 bs x f g (λ a. h a (m w).1)

  module _ {A : Type 0} where
    pub Clears-within :
        (m : Exec W A) (w : W) (bs : List Bytes) → Clears (within m (memory w bs)) (m w) bs
    unfolding within
    Clears-within m w bs = record {
      result = refl;
      world = refl;
      made = [];
      left = sym (append-nil bs);
      zero = tt;
    }

    pub Clears-raise :
        (e : Error) (w : W) (bs : List Bytes)
        → Clears {A = A} (raise e (memory w bs)) (raise e w) bs
    Clears-raise e w bs = record {
      result = refl;
      world = refl;
      made = [];
      left = sym (append-nil bs);
      zero = tt;
    }

    pub Clears-if :
        (b : Bool) (f g : Exec (Memory W) A) (f' g' : Exec W A) (w : W) (bs : List Bytes)
        → Clears (f (memory w bs)) (f' w) bs
        → Clears (g (memory w bs)) (g' w) bs
        → Clears ((if b then f else g) (memory w bs)) ((if b then f' else g') w) bs
    Clears-if true f g f' g' w bs h k = h
    Clears-if false f g f' g' w bs h k = k

    pub Holds-Clears :
        {run : Result A × Memory W} {plain : Result A × W} (bs : List Bytes) (x : Bytes)
        → Clears run plain (bs ++ x ∷ [])
        → Holds run plain bs
    Holds-Clears bs x h = record {
      result = h.result;
      world = h.world;
      first = x;
      made = h.made;
      left = h.left ∙ append_assoc bs (x ∷ []) h.made;
      zero = h.zero;
    }

    pub Clears-clearing :
        (m : Exec (Memory W) A) (s : Memory W) {plain : Result A × W} (bs : List Bytes)
        → Holds (m s) plain bs
        → Clears (clearing (length bs) m s) plain bs
    unfolding clearing
    Clears-clearing m s bs h = record {
      result = h.result;
      world = h.world;
      made = zero_bytes h.first ∷ h.made;
      left =
          rw (h.left, buffer_at-append bs h.first h.made)
            (with_buffer-append bs h.first h.made (zero_bytes h.first));
      zero = (zero_bytes-IsZero h.first, h.zero);
    }
