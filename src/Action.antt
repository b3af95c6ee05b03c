-- ===== src/Action.antt =====
-- Methods that change shared state and may fail: an action takes the state and returns the result
-- with the new state. What was written before an error stays written.
pub mod Laws
pub mod Keeps
use blog_go.Errs.{Error}

pub data Result {ℓ} (A : Type ℓ) : Type ℓ where
  ok : A → Result A
  err : Error → Result A

abbrev pub Action : Type 0 → Type 0 → Type 0
Action W A = W → Result A × W

module _ {W A : Type 0} where
  abbrev pub pure : A → Action W A
  pure a w = (ok a, w)

  abbrev pub fail : Error → Action W A
  fail e w = (err e, w)

  -- A call that only computes.
  abbrev pub lift : Result A → Action W A
  lift r w = (r, w)

module _ {W A B : Type 0} where
  abbrev pub continue : Result A → (A → Action W B) → (Error → Action W B) → Action W B
  continue (ok a) f g w = f a w
  continue (err e) f g w = g e w

  -- `a, err := m; if err != nil { g err } else { f a }`
  unfoldable pub branch : Action W A → (A → Action W B) → (Error → Action W B) → Action W B
  branch m f g w = let (r, w') = m w in continue r f g w'

  infixl 10 ◌>>=◌
  -- `if err != nil { return err }`
  unfoldable pub ◌>>=◌ : Action W A → (A → Action W B) → Action W B
  unfolding branch
  m >>= f = branch m f fail

module _ {W B : Type 0} where
  infixl 10 ◌>>◌
  abbrev pub ◌>>◌ : Action W (Unit {0}) → Action W B → Action W B
  m >> n = m >>= λ _. n

module _ {W A : Type 0} where
  -- The error of `m` is rewritten, its result is kept.
  unfoldable pub map_err : (Error → Error) → Action W A → Action W A
  unfolding branch
  map_err f m = branch m pure (λ e. fail (f e))

module _ {W : Type 0} where
  -- A call whose error is logged and forgotten.
  unfoldable pub swallow : Action W (Unit {0}) → Action W (Unit {0})
  unfolding branch
  swallow m = branch m (λ _. pure tt) (λ _. pure tt)
