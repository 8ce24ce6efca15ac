-- ===== src/Exec/Runs.antt =====
-- Taking apart a run of actions that succeeded.
use keyring.Prelude.{◌≡◌, refl, arith}
use keyring.Errors.{Error}
use keyring.Exec.{Exec, Result, ok, err, continue, on_error, ◌>>=◌}

module _ {W A B : Type 0} where
  continue-eq-ok :
      (r : Result A) (v : W) (f : A → Exec W B) {b : B} {w' : W}
      → continue r f v ≡ (ok b, w')
      → (a : A) × (r ≡ ok a) × (f a v ≡ (ok b, w'))
  continue-eq-ok (ok a) v f h = (a, refl, h)
  continue-eq-ok (err e) v f h = ground arith

  pub >>=-eq-ok :
      (m : Exec W A) (f : A → Exec W B) (w : W) {b : B} {w' : W}
      → (m >>= f) w ≡ (ok b, w')
      → (a : A) × ((m w).0 ≡ ok a) × (f a (m w).1 ≡ (ok b, w'))
  >>=-eq-ok m f w h = continue-eq-ok (m w).0 (m w).1 f h

pub on_error-eq-ok :
    {W A : Type 0} (f : Error → Error) (m : Exec W A) (w : W) {a : A}
    → (on_error f m w).0 ≡ ok a
    → (m w).0 ≡ ok a
on_error-eq-ok f m w h = ground arith

-- A run is its result beside the state that it leaves.
pub run-eq-ok :
    {W A : Type 0} (m : Exec W A) (w : W) {a : A} → (m w).0 ≡ ok a → m w ≡ (ok a, (m w).1)
run-eq-ok m w h = λ i. (h i, (m w).1)
