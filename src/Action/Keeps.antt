-- ===== src/Action/Keeps.antt =====
-- Invariants of actions, one rule for each way to build an action. An action keeps an invariant also
-- when it fails.
use blog_go.Prelude.{◌≡◌, refl, Bool, true, false, if◌then◌else◌}
use blog_go.Errs.{Error}
use blog_go.Action.{
  Result, ok, err, Action, continue, pure, fail, lift, branch, ◌>>=◌, map_err, swallow,
}

pub record Keeps {W A : Type 0} (P : W → Type 0) (m : Action W A) : Type 0 where
  pub at : (w : W) → P w → P (m w).1

module _ {W A : Type 0} {P : W → Type 0} where
  pub Keeps-pure : (a : A) → Keeps P (pure a)
  Keeps-pure a = record { at = λ w h. h }

  pub Keeps-fail : (e : Error) → Keeps P (fail {A = A} e)
  Keeps-fail e = record { at = λ w h. h }

  pub Keeps-lift : (r : Result A) → Keeps P (lift r)
  Keeps-lift r = record { at = λ w h. h }

  pub Keeps-if :
      (b : Bool) (m n : Action W A) → Keeps P m → Keeps P n → Keeps P (if b then m else n)
  Keeps-if true m n km kn = km
  Keeps-if false m n km kn = kn

module _ {W A B : Type 0} where
  pub Keeps-continue :
      (P : W → Type 0) (r : Result A) (f : A → Action W B) (g : Error → Action W B) (w : W)
      → ((a : A) → r ≡ ok a → P (f a w).1)
      → ((e : Error) → r ≡ err e → P (g e w).1)
      → P (continue r f g w).1
  Keeps-continue P (ok a) f g w hf hg = hf a refl
  Keeps-continue P (err e) f g w hf hg = hg e refl

module _ {W A B : Type 0} {P : W → Type 0} where
  -- The branches may use that the call returned their value or error somewhere.
  pub Keeps-branch :
      (m : Action W A) (f : A → Action W B) (g : Error → Action W B)
      → Keeps P m
      → ((a : A) (w : W) → (m w).0 ≡ ok a → Keeps P (f a))
      → ((e : Error) (w : W) → (m w).0 ≡ err e → Keeps P (g e))
      → Keeps P (branch m f g)
  unfolding branch
  Keeps-branch m f g km kf kg = record {
    at = λ w h.
        Keeps-continue P (m w).0 f g (m w).1 (λ a e. (kf a w e).at (m w).1 (km.at w h))
          (λ x e. (kg x w e).at (m w).1 (km.at w h));
  }

  pub Keeps-bind :
      (m : Action W A) (f : A → Action W B)
      → Keeps P m
      → ((a : A) (w : W) → (m w).0 ≡ ok a → Keeps P (f a))
      → Keeps P (m >>= f)
  unfolding ◌>>=◌
  Keeps-bind m f km kf = Keeps-branch m f fail km kf (λ e w _. record { at = λ _ h. h })

module _ {W A : Type 0} {P : W → Type 0} where
  pub Keeps-map_err : (g : Error → Error) (m : Action W A) → Keeps P m → Keeps P (map_err g m)
  unfolding map_err
  Keeps-map_err g m km =
      Keeps-branch m pure (λ e. fail (g e)) km (λ a _ _. Keeps-pure a) (λ e _ _. Keeps-fail (g e))

module _ {W : Type 0} {P : W → Type 0} where
  pub Keeps-swallow : (m : Action W (Unit {0})) → Keeps P m → Keeps P (swallow m)
  unfolding swallow
  Keeps-swallow m km =
      Keeps-branch m (λ _. pure tt) (λ _. pure tt) km (λ _ _ _. Keeps-pure tt)
        (λ _ _ _. Keeps-pure tt)

pub ruleset keeps_rules = (
  Keeps-pure, Keeps-fail, Keeps-lift, Keeps-if, Keeps-branch, Keeps-bind, Keeps-map_err,
  Keeps-swallow,
)
