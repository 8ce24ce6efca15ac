-- ===== src/WinHello/Passport/Handles.antt =====
-- Which NCrypt handles an action frees on balance: rules for each way to build an action.
use keyring.Prelude.{
  ℕ, ◌+◌, ◌≡◌, List, [], ◌∷◌, Bool, true, false, arith, ◌==◌, nat_eq, if◌then◌else◌,
}
use keyring.Errors.{Error}
use keyring.Exec.{Exec, Result, ok, err, pure, raise, attempt, on_error, continue, ◌>>=◌}
use keyring.WinHello.NCrypt.{Handle}
use keyring.WinHello.NCrypt.Trace.{Trace, opens, frees}
use keyring.WinHello.Passport.{ignore, finally}

abbrev pub count : Handle → List Handle → ℕ
count k [] = 0
count k (h ∷ hs) = (if h == k then 1 else 0) + count k hs

-- The trace grew by as many frees of each handle as openings of it, and by one more for each time
-- that it is listed.
abbrev pub Settles : List Handle → Trace → Trace → Type 0
Settles hs t t' = (k : Handle) → opens k t' + frees k t + count k hs ≡ frees k t' + opens k t

pub record Nets {A : Type 0} (hs : List Handle) (m : Exec Trace A) : Type 0 where
  pub at : (t : Trace) → Settles hs t (m t).1

-- 1 at the handle that a result holds, and 0 elsewhere.
abbrev pub held : {A : Type 0} → (A → Handle) → Result A → Handle → ℕ
held handle (ok a) k = if handle a == k then 1 else 0
held handle (err e) k = 0

-- The action opens the handle that it returns, and nothing where it fails.
pub record Acquires {A : Type 0} (handle : A → Handle) (m : Exec Trace A) : Type 0 where
  pub at :
      (t : Trace) (k : Handle)
      → opens k (m t).1 + frees k t ≡ frees k (m t).1 + opens k t + held handle (m t).0 k

module _ {A : Type 0} where
  pub Nets-pure : (a : A) → Nets [] (pure {W = Trace} a)
  Nets-pure a = record { at = λ t k. omega arith }

  pub Nets-raise : (e : Error) → Nets [] (raise {W = Trace} {A = A} e)
  Nets-raise e = record { at = λ t k. omega arith }

  pub Nets-on_error :
      (f : Error → Error) (m : Exec Trace A) {hs : List Handle} → Nets hs m → Nets hs (on_error f m)
  Nets-on_error f m h = record { at = h.at }

  pub Nets-ignore : (m : Exec Trace A) {hs : List Handle} → Nets hs m → Nets hs (ignore m)
  Nets-ignore m h = record { at = h.at }

  pub Nets-attempt : (m : Exec Trace A) {hs : List Handle} → Nets hs m → Nets hs (attempt m)
  Nets-attempt m h = record { at = h.at }

  pub Acquires-on_error :
      (f : Error → Error) (handle : A → Handle) (m : Exec Trace A)
      → Acquires handle m
      → Acquires handle (on_error f m)
  Acquires-on_error f handle m h = record { at = λ t k. ground (arith, h.at t k) }

  pub Nets-if :
      (b : Bool) (m n : Exec Trace A) {hs : List Handle}
      → Nets hs m
      → Nets hs n
      → Nets hs (if b then m else n)
  Nets-if true m n hm hn = hm
  Nets-if false m n hm hn = hn

module _ {A B : Type 0} where
  Settles-continue :
      (r : Result A) (f : A → Exec Trace B) (t v : Trace)
      → Settles [] t v
      → ((a : A) → Nets [] (f a))
      → Settles [] t (continue r f v).1
  Settles-continue (ok a) f t v h hf k = omega (arith, h k, (hf a).at v k)
  Settles-continue (err e) f t v h hf k = h k

  pub Nets-bind :
      (m : Exec Trace A) (f : A → Exec Trace B)
      → Nets [] m
      → ((a : A) → Nets [] (f a))
      → Nets [] (m >>= f)
  Nets-bind m f hm hf = record { at = λ t. Settles-continue (m t).0 f t (m t).1 (hm.at t) hf }

  -- What cannot fail and frees a handle, before the rest.
  pub Nets-ignore_free :
      (h : Handle) (m : Exec Trace A) (n : Exec Trace B) {hs : List Handle}
      → Nets (h ∷ []) m
      → Nets hs n
      → Nets (h ∷ hs) (ignore m >>= λ _. n)
  Nets-ignore_free h m n hm hn = record { at = λ t k. omega (arith, hm.at t k, hn.at (m t).1 k) }

  pub Nets-attempt_free :
      (h : Handle) (m : Exec Trace A) (f : Result A → Exec Trace B) {hs : List Handle}
      → Nets (h ∷ []) m
      → ((r : Result A) → Nets hs (f r))
      → Nets (h ∷ hs) (attempt m >>= f)
  Nets-attempt_free h m f hm hf = record {
    at = λ t k. omega (arith, hm.at t k, (hf (m t).0).at (m t).1 k);
  }

  -- An action that settles itself, whatever its result, before the rest.
  pub Nets-attempt_bind :
      (m : Exec Trace A) (f : Result A → Exec Trace B) {hs : List Handle}
      → Nets [] m
      → ((r : Result A) → Nets hs (f r))
      → Nets hs (attempt m >>= f)
  Nets-attempt_bind m f hm hf = record {
    at = λ t k. omega (arith, hm.at t k, (hf (m t).0).at (m t).1 k);
  }

  Settles-acquired :
      (handle : A → Handle) (f : A → Exec Trace B) (r : Result A) (t v : Trace)
      → ((k : Handle) → opens k v + frees k t ≡ frees k v + opens k t + held handle r k)
      → ((a : A) → Nets (handle a ∷ []) (f a))
      → Settles [] t (continue r f v).1
  Settles-acquired handle f (ok a) t v h hf k = omega (arith, h k, (hf a).at v k)
  Settles-acquired handle f (err e) t v h hf k = omega (arith, h k)

  -- What was acquired is freed by the rest.
  pub Nets-acquire :
      (handle : A → Handle) (m : Exec Trace A) (f : A → Exec Trace B)
      → Acquires handle m
      → ((a : A) → Nets (handle a ∷ []) (f a))
      → Nets [] (m >>= f)
  Nets-acquire handle m f hm hf = record {
    at = λ t. Settles-acquired handle f (m t).0 t (m t).1 (hm.at t) hf;
  }

module _ {B : Type 0} where
  -- A deferred free settles the handle, however the body ends.
  pub Nets-finally :
      (h : Handle) (last : Exec Trace Unit) (body : Exec Trace B)
      → Nets (h ∷ []) last
      → Nets [] body
      → Nets (h ∷ []) (finally last body)
  Nets-finally h last body hl hb = record {
    at = λ t k. omega (arith, hb.at t k, hl.at (body t).1 k);
  }

  Settles-attempted :
      (f : Result Handle → Exec Trace B) (r : Result Handle) (t v : Trace) (hs : List Handle)
      → ((k : Handle) → opens k v + frees k t ≡ frees k v + opens k t + held (λ h. h) r k)
      → ((h : Handle) → Nets (h ∷ hs) (f (ok h)))
      → ((e : Error) → Nets hs (f (err e)))
      → Settles hs t (f r v).1
  Settles-attempted f (ok a) t v hs h hok herr k = omega (arith, h k, (hok a).at v k)
  Settles-attempted f (err e) t v hs h hok herr k = omega (arith, h k, (herr e).at v k)

  -- A handle that may have been acquired: where it was, the rest frees it too.
  pub Nets-attempt_acquire :
      (m : Exec Trace Handle) (f : Result Handle → Exec Trace B) {hs : List Handle}
      → Acquires (λ h. h) m
      → ((h : Handle) → Nets (h ∷ hs) (f (ok h)))
      → ((e : Error) → Nets hs (f (err e)))
      → Nets hs (attempt m >>= f)
  Nets-attempt_acquire m f {hs} hm hok herr = record {
    at = λ t. Settles-attempted f (m t).0 t (m t).1 hs (hm.at t) hok herr;
  }

pub ruleset net_rules = (
  Nets-pure, Nets-raise, Nets-on_error, Nets-ignore, Nets-if, Nets-bind, Nets-ignore_free,
  Nets-attempt_free, Nets-attempt_bind, Nets-acquire, Nets-finally, Nets-attempt_acquire,
  Acquires-on_error,
)

module _ {A B : Type 0} where
  Acquires-continue :
      (handle : B → Handle) (r : Result A) (f : A → Exec Trace B) (t v : Trace)
      → Settles [] t v
      → ((a : A) → Acquires handle (f a))
      → (k : Handle)
      → opens k (continue r f v).1 + frees k t
        ≡ frees k (continue r f v).1 + opens k t + held handle (continue r f v).0 k
  Acquires-continue handle (ok a) f t v h hf k = omega (arith, h k, (hf a).at v k)
  Acquires-continue handle (err e) f t v h hf k = omega (arith, h k)

  pub Acquires-bind :
      (handle : B → Handle) (m : Exec Trace A) (f : A → Exec Trace B)
      → Nets [] m
      → ((a : A) → Acquires handle (f a))
      → Acquires handle (m >>= f)
  Acquires-bind handle m f hm hf = record {
    at = λ t. Acquires-continue handle (m t).0 f t (m t).1 (hm.at t) hf;
  }

  Settles-setup :
      (g : Handle → Exec Trace A) (b : B) (r : Result Handle) (t v : Trace)
      → ((k : Handle) → opens k v + frees k t ≡ frees k v + opens k t + held (λ h. h) r k)
      → ((h : Handle) → Nets [] (g h))
      → (k : Handle)
      → let done : Result (Handle × B) × Trace =
          continue r (λ h. ignore (g h) >>= λ _. pure (h, b)) v in
        opens k done.1 + frees k t ≡ frees k done.1 + opens k t + held (λ p. p.0) done.0 k
  Settles-setup g b (ok h) t v hv hg k = omega (arith, hv k, (hg h).at v k)
  Settles-setup g b (err e) t v hv hg k = omega (arith, hv k)

  pub Acquires-setup :
      (m : Exec Trace Handle) (g : Handle → Exec Trace A) (b : B)
      → Acquires (λ h. h) m
      → ((h : Handle) → Nets [] (g h))
      → Acquires (λ (p : Handle × B). p.0) (m >>= λ h. ignore (g h) >>= λ _. pure (h, b))
  Acquires-setup m g b hm hg = record { at = λ t. Settles-setup g b (m t).0 t (m t).1 (hm.at t) hg }
