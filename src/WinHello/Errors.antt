-- ===== src/WinHello/Errors.antt =====
-- Which results of the Windows Hello code say that an item is missing.
use keyring.Prelude.{◌≡◌, refl, false, String, arith}
use keyring.Errors.{Error, Sentinel, sentinel, wrapf, wrapf_both, is, winhello_err_key_not_found}
use keyring.Exec.{Exec, Result, ok, err, rethrow, continue, ◌>>=◌}

-- The error is not `winhello.ErrKeyNotFound`, nor does it wrap it.
abbrev pub IsOther : Error → Type 0
IsOther e = is e winhello_err_key_not_found ≡ false

abbrev pub IsOtherResult {ℓ} : {A : Type ℓ} → Result A → Type 0
IsOtherResult (ok a) = Unit
IsOtherResult (err e) = IsOther e

pub IsOtherResult-wrapf {ℓ} :
    {A : Type ℓ} (m : String) (r : Result A) → IsOtherResult r → IsOtherResult (rethrow (wrapf m) r)
unfolding is
IsOtherResult-wrapf m (ok a) h = tt
IsOtherResult-wrapf m (err e) h = h

pub IsOtherResult-wrapf_both {ℓ} :
    {A : Type ℓ} (m : String) (s : Sentinel) (r : Result A)
    → IsOther (sentinel s)
    → IsOtherResult r
    → IsOtherResult (rethrow (wrapf_both m (sentinel s)) r)
unfolding is
IsOtherResult-wrapf_both m s (ok a) hs h = tt
IsOtherResult-wrapf_both m s (err e) hs h = ground arith

module _ {W A B : Type 0} where
  continue-IsOtherResult :
      (r : Result A) (v : W) (f : A → Exec W B)
      → IsOtherResult r
      → ((a : A) → r ≡ ok a → IsOtherResult (f a v).0)
      → IsOtherResult (continue r f v).0
  continue-IsOtherResult (ok a) v f hr hf = hf a refl
  continue-IsOtherResult (err e) v f hr hf = hr

  pub >>=-IsOtherResult :
      (m : Exec W A) (f : A → Exec W B) (w : W)
      → IsOtherResult (m w).0
      → ((a : A) → (m w).0 ≡ ok a → IsOtherResult (f a (m w).1).0)
      → IsOtherResult ((m >>= f) w).0
  >>=-IsOtherResult m f w hm hf = continue-IsOtherResult (m w).0 (m w).1 f hm hf
