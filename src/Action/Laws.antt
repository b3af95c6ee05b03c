-- ===== src/Action/Laws.antt =====
-- What an action that succeeded came through, and what it ensures.
use blog_go.Prelude.{Bool, true, false, if◌then◌else◌, ◌≡◌, refl, arith, subst, ◌⊎◌, inl, inr}
use blog_go.Errs.{Error}
use blog_go.Action.{branch, Result, ok, err, Action, continue, fail, pure, ◌>>=◌, map_err}

module _ {W A B : Type 0} where
  continue-eq-ok :
      (r : Result A) (f : A → Action W B) (w : W) {b : B} {v : W}
      → continue r f fail w ≡ (ok b, v)
      → (a : A) × (r ≡ ok a) × (f a w ≡ (ok b, v))
  continue-eq-ok (ok a) f w h = (a, refl, h)
  continue-eq-ok (err e) f w h = absurd (ground arith)

  -- A block that returns a value has come through its first step.
  pub >>=-eq-ok :
      (m : Action W A) (f : A → Action W B) (w : W) {b : B} {v : W}
      → (m >>= f) w ≡ (ok b, v)
      → (a : A) × (u : W) × (m w ≡ (ok a, u)) × (f a u ≡ (ok b, v))
  unfolding ◌>>=◌
  >>=-eq-ok m f w h =
      let (a, e, k) = continue-eq-ok (m w).0 f (m w).1 h in (a, (m w).1, ground arith, k)

  -- A block goes on after a step that succeeded, and ends at one that failed.
  pub >>=-ok :
      (m : Action W A) (f : A → Action W B) (w u : W) (a : A)
      → m w ≡ (ok a, u)
      → (m >>= f) w ≡ f a u
  unfolding ◌>>=◌
  >>=-ok m f w u a h = rw h refl

  pub >>=-err :
      (m : Action W A) (f : A → Action W B) (w u : W) (e : Error)
      → m w ≡ (err e, u)
      → (m >>= f) w ≡ (err e, u)
  unfolding ◌>>=◌
  >>=-err m f w u e h = rw h refl

module _ {W A : Type 0} where
  map_err_result :
      (g : Error → Error) (r : Result A) (w : W) {a : A} {v : W}
      → continue r pure (λ e. fail (g e)) w ≡ (ok a, v)
      → ◌≡◌ {A = Result A × W} (r, w) (ok a, v)
  map_err_result g (ok a) w h = h
  map_err_result g (err e) w h = absurd (ground arith)

  pub map_err-eq-ok :
      (g : Error → Error) (m : Action W A) (w : W) {a : A} {v : W}
      → map_err g m w ≡ (ok a, v)
      → m w ≡ (ok a, v)
  unfolding map_err
  map_err-eq-ok g m w h = map_err_result g (m w).0 (m w).1 h

-- What holds of the value and the state whenever a call succeeds.
pub record Ensures {W A : Type 0} (Q : A → W → Type 0) (r : Result A × W) : Type 0 where
  pub at : (a : A) (w : W) → r ≡ (ok a, w) → Q a w

module _ {W A : Type 0} {Q : A → W → Type 0} where
  pub Ensures-pure : (a : A) (w : W) → Q a w → Ensures Q (pure a w)
  Ensures-pure a w h = record { at = λ b v e. subst (λ (r : Result A × W). Holds r) e h }
    where
      Holds : Result A × W → Type 0
      Holds (ok b, v) = Q b v
      Holds (err _, v) = ⊥

  pub Ensures-fail : (e : Error) (w : W) → Ensures Q (fail e w)
  Ensures-fail e w = record { at = λ b v h. absurd (ground arith) }

  pub Ensures-map_err :
      (g : Error → Error) (m : Action W A) (w : W) → Ensures Q (m w) → Ensures Q (map_err g m w)
  Ensures-map_err g m w h = record { at = λ a v e. h.at a v (map_err-eq-ok g m w e) }

module _ {W A B : Type 0} {Q : B → W → Type 0} where
  -- The rest of a block is looked at after a first step that succeeded.
  pub Ensures-bind :
      (m : Action W A) (f : A → Action W B) (w : W)
      → ((a : A) (u : W) → m w ≡ (ok a, u) → Ensures Q (f a u))
      → Ensures Q ((m >>= f) w)
  Ensures-bind m f w h = record {
    at = λ b v e. let (a, u, first, rest) = >>=-eq-ok m f w e in (h a u first).at b v rest;
  }

module _ {W A : Type 0} where
  -- A success passes.
  pub map_err-passes :
      (g : Error → Error) (m : Action W A) (w u : W) (a : A)
      → m w ≡ (ok a, u)
      → map_err g m w ≡ (ok a, u)
  unfolding map_err
  map_err-passes g m w u a h = rw h refl

  map_result_state :
      (g : Error → Error) (r : Result A) (w : W) → (continue r pure (λ e. fail (g e)) w).1 ≡ w
  map_result_state g (ok a) w = refl
  map_result_state g (err e) w = refl

  -- Rewriting the error changes no state, and makes no success of a failure.
  pub map_err-state : (g : Error → Error) (m : Action W A) (w : W) → (map_err g m w).1 ≡ (m w).1
  unfolding map_err
  map_err-state g m w = map_result_state g (m w).0 (m w).1

  map_result_ok :
      (g : Error → Error) (r : Result A) (w : W) (a : A)
      → (continue r pure (λ e. fail (g e)) w).0 ≡ ok a
      → r ≡ ok a
  map_result_ok g (ok a) w b h = h
  map_result_ok g (err e) w b h = absurd (ground arith)

  pub map_err-ok :
      (g : Error → Error) (m : Action W A) (w : W) (a : A)
      → (map_err g m w).0 ≡ ok a
      → (m w).0 ≡ ok a
  unfolding map_err
  map_err-ok g m w a h = map_result_ok g (m w).0 (m w).1 a h

module _ {W A B : Type 0} where
  continue-cases :
      (r : Result A) (f : A → Action W B) (u : W)
      → ((e : Error) × (r ≡ err e) × (continue r f fail u ≡ (err e, u)))
        ⊎ ((a : A) × (r ≡ ok a) × (continue r f fail u ≡ f a u))
  continue-cases (ok a) f u = inr (a, refl, refl)
  continue-cases (err e) f u = inl (e, refl, refl)

  -- A block ends at its first step with that error, or goes on from there.
  pub >>=-cases :
      (m : Action W A) (f : A → Action W B) (w : W)
      → ((e : Error) × (u : W) × (m w ≡ (err e, u)) × ((m >>= f) w ≡ (err e, u)))
        ⊎ ((a : A) × (u : W) × (m w ≡ (ok a, u)) × ((m >>= f) w ≡ f a u))
  unfolding ◌>>=◌
  >>=-cases m f w = elim (continue-cases (m w).0 f (m w).1) [
    | inl (e, same, out) ↦ inl (e, (m w).1, ground arith, out)
    | inr (a, same, out) ↦ inr (a, (m w).1, ground arith, out)
  ]

-- To split on a computed result and keep the equation.
pub Result-cases :
    {A : Type 0} (r : Result A) → ((a : A) × (r ≡ ok a)) ⊎ ((e : Error) × (r ≡ err e))
Result-cases (ok a) = inl (a, refl)
Result-cases (err e) = inr (e, refl)

module _ {W A B : Type 0} {Q : B → W → Type 0} where
  continue-Ensures :
      (r : Result A) (f : A → Action W B) (g : Error → Action W B) (w : W)
      → ((a : A) → r ≡ ok a → Ensures Q (f a w))
      → ((e : Error) → r ≡ err e → Ensures Q (g e w))
      → Ensures Q (continue r f g w)
  continue-Ensures (ok a) f g w hf hg = hf a refl
  continue-Ensures (err e) f g w hf hg = hg e refl

  -- Both branches are looked at after the result that leads to them.
  pub Ensures-branch :
      (m : Action W A) (f : A → Action W B) (g : Error → Action W B) (w : W)
      → ((a : A) (u : W) → m w ≡ (ok a, u) → Ensures Q (f a u))
      → ((e : Error) (u : W) → m w ≡ (err e, u) → Ensures Q (g e u))
      → Ensures Q (branch m f g w)
  unfolding branch
  Ensures-branch m f g w hf hg =
      continue-Ensures (m w).0 f g (m w).1 (λ a e. hf a (m w).1 (ground arith))
        (λ x e. hg x (m w).1 (ground arith))

module _ {W B : Type 0} {Q : B → W → Type 0} where
  pub Ensures-if :
      (b : Bool) (m n : Action W B) (w : W)
      → Ensures Q (m w)
      → Ensures Q (n w)
      → Ensures Q ((if b then m else n) w)
  Ensures-if true m n w hm hn = hm
  Ensures-if false m n w hm hn = hn
