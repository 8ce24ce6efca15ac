-- ===== src/Exec.antt =====
-- Go's `(value, error)` results and code that acts on the world outside the program: an action
-- takes the state of the world and returns a result beside the state that it leaves.
pub mod Object
pub mod Pure
pub mod Runs
use keyring.Prelude.{◌≡◌, refl, ◌⊎◌, inl, inr, Bool, true, false, Option, none, some}
use keyring.Errors.{Error, sentinel, err_key_not_found}

pub data Result {ℓ} (A : Type ℓ) : Type ℓ where
  ok : A → Result A
  err : Error → Result A

abbrev pub is_ok {ℓ} : {A : Type ℓ} → Result A → Bool
is_ok (ok a) = true
is_ok (err e) = false

abbrev pub Exec : Type 0 → Type 0 → Type 0
Exec W A = W → Result A × W

abbrev pub rethrow {ℓ} : {A : Type ℓ} → (Error → Error) → Result A → Result A
rethrow f (ok a) = ok a
rethrow f (err e) = err (f e)

module _ {W A : Type 0} where
  abbrev pub pure : A → Exec W A
  pure a w = (ok a, w)

  abbrev pub raise : Error → Exec W A
  raise e w = (err e, w)

  abbrev pub lift : Result A → Exec W A
  lift r w = (r, w)

  -- The result, error or not, as a value: `x, err := m()`.
  abbrev pub attempt : Exec W A → Exec W (Result A)
  attempt m w = let (r, w') = m w in (ok r, w')

  -- `if err != nil { return …, f(err) }`.
  abbrev pub on_error : (Error → Error) → Exec W A → Exec W A
  on_error f m w = let (r, w') = m w in (rethrow f r, w')

module _ {W A B : Type 0} where
  abbrev pub continue : Result A → (A → Exec W B) → Exec W B
  continue (ok a) f w = f a w
  continue (err e) f w = (err e, w)

  infixl 10 ◌>>=◌ ◌>>◌
  abbrev pub ◌>>=◌ : Exec W A → (A → Exec W B) → Exec W B
  ◌>>=◌ m f w = let (r, w') = m w in continue r f w'

  abbrev pub ◌>>◌ : Exec W A → Exec W B → Exec W B
  m >> n = m >>= λ _. n

-- The value that an operation returns for what it found, or `ErrKeyNotFound`.
abbrev pub found {ℓ} : {A : Type ℓ} → Option A → Result A
found none = err (sentinel err_key_not_found)
found (some a) = ok a

pub run-cases {ℓ κ} :
    {A : Type ℓ} {W : Type κ} (p : Result A × W)
    → ((a : A) × (w : W) × (p ≡ (ok a, w))) ⊎ ((e : Error) × (w : W) × (p ≡ (err e, w)))
run-cases (ok a, w) = inl (a, w, refl)
run-cases (err e, w) = inr (e, w, refl)

pub Result-cases {ℓ} :
    {A : Type ℓ} (r : Result A) → ((a : A) × (r ≡ ok a)) ⊎ ((e : Error) × (r ≡ err e))
Result-cases (ok a) = inl (a, refl)
Result-cases (err e) = inr (e, refl)
