-- ===== src/Processors/Backoff/Growth.antt =====
-- The delay of internal/processors/backoff.go against the exponential that it stands for.
use native.Mathlib.Nat.{
  pow-zero, pow-succ', mul-one, mul_assoc, mul-le-mul_left, mul-le-mul_right, le-mul_of_pos_right,
  one-le-pow, pow-le-pow_right,
}
use blog_go.Prelude.{
  ℕ, zero, suc, ◌+◌, ◌*◌, ◌%◌, ◌^◌, ◌≤◌, ◌<◌, min, leb, ◌==◌, ◌≡◌, refl, arith, if◌then◌else◌, inl,
  inr, Bool-cases, false, tests,
}
use blog_go.Processors.Backoff.{
  ExponentialBackOff, signed_ge, word, grow, rounds_of, next_delay, accumulate_adverse,
}

-- The settings under which no product of the loop overflows an `int64`.
pub record IsConfigured (b : ExponentialBackOff) : Type 0 where
  pub base_pos : 1 ≤ b.base
  pub within : b.coefficient ≤ b.max_delay
  pub fits : b.max_delay * b.base < 2 ^ 63

-- Below 2 ^ 63 the signed comparison is the plain one.
signed_ge_small : (a b : ℕ) → a < 2 ^ 63 → b < 2 ^ 63 → signed_ge a b ≡ leb b a
signed_ge_small a b h k = ground arith

module _ (b : ExponentialBackOff) (c : IsConfigured b) where
  max_fits : b.max_delay < 2 ^ 63
  max_fits = omega (arith, c.fits, mul-le-mul_left b.max_delay c.base_pos, mul-one b.max_delay)

  next_fits : (delay : ℕ) → delay ≤ b.max_delay → delay * b.base < 2 ^ 63
  next_fits delay h = omega (arith, c.fits, mul-le-mul_right b.base h)

  next_plain : (delay : ℕ) → delay ≤ b.max_delay → delay * b.base % word ≡ delay * b.base
  next_plain delay h = omega (arith, next_fits delay h)

  -- One more factor of the base does not shrink a product.
  scaled_le : (delay n : ℕ) → delay * b.base ≤ delay * b.base ^ suc n
  scaled_le delay n =
      rw (pow-succ', ← mul_assoc)
        (le-mul_of_pos_right (delay * b.base) (one-le-pow n b.base c.base_pos))

  -- A round of the loop: it stops at the cap, or goes on with the product.
  grow-suc :
      (n delay : ℕ)
      → delay ≤ b.max_delay
      → grow b (suc n) delay
        ≡ (if leb b.max_delay (delay * b.base) then b.max_delay else grow b n (delay * b.base))
  unfolding grow
  grow-suc n delay h =
      rw (next_plain delay h, signed_ge_small _ _ (next_fits delay h) max_fits) refl

  grow-eq-min :
      (n delay : ℕ) → delay ≤ b.max_delay → grow b n delay ≡ min (delay * b.base ^ n) b.max_delay
  grow-eq-min zero delay h = rw (pow-zero, mul-one) (unfold grow in omega arith)
  grow-eq-min (suc n) delay h = elim (Bool-cases (leb b.max_delay (delay * b.base))) [
    | inl stop ↦ rw (grow-suc n delay h, stop) (omega (tests, scaled_le delay n, stop))
    | inr more ↦
        rw (grow-suc n delay h, more)
          (rw (grow-eq-min n (delay * b.base) (omega (tests, more)), pow-succ', ← mul_assoc))
  ]

module _ (b : ExponentialBackOff) (c : IsConfigured b) where
  -- After n + 1 failures in a row the delay is the coefficient times the base to the power n, capped at
  -- the largest delay, as long as a product of the largest delay and the base fits an int64, the
  -- coefficient is within the largest delay, the base is at least 1 and the count is no negative word.
  pub next_delay-eq-min :
      (n : ℕ)
      → b.adverse_count ≡ suc n
      → suc n < 2 ^ 63
      → next_delay b ≡ min (b.coefficient * b.base ^ n) b.max_delay
  unfolding next_delay
  next_delay-eq-min n e h =
      let rounds : rounds_of b.adverse_count ≡ n = unfold rounds_of in ground arith in
      let failed : (b.adverse_count == 0) ≡ false = ground arith in
      rw (failed, rounds) (grow-eq-min b c n b.coefficient c.within)

  failed_once :
      b.adverse_count + 1 < 2 ^ 63 → (accumulate_adverse b).adverse_count ≡ suc b.adverse_count
  unfolding accumulate_adverse
  failed_once h = omega arith

  IsConfigured-accumulate : IsConfigured (accumulate_adverse b)
  unfolding accumulate_adverse
  IsConfigured-accumulate = record { base_pos = c.base_pos; within = c.within; fits = c.fits }

  -- The exponential grows with its exponent, under the cap too.
  capped_mono :
      (n : ℕ)
      → min (b.coefficient * b.base ^ n) b.max_delay
        ≤ min (b.coefficient * b.base ^ suc n) b.max_delay
  capped_mono n = omega (
    arith,
    mul-le-mul_left b.coefficient (pow-le-pow_right c.base_pos {i = n} {j = suc n} (omega arith)),
  )

module _ (b : ExponentialBackOff) (c : IsConfigured b) (h : b.adverse_count + 1 < 2 ^ 63) where
  next_delay-accumulate :
      next_delay (accumulate_adverse b) ≡ min (b.coefficient * b.base ^ b.adverse_count) b.max_delay
  unfolding accumulate_adverse
  next_delay-accumulate =
      next_delay-eq-min (accumulate_adverse b) (IsConfigured-accumulate b c) b.adverse_count
        (failed_once b c h) (omega arith)

  next_delay-le_of_count :
      (n : ℕ)
      → b.adverse_count ≡ n
      → next_delay b ≤ min (b.coefficient * b.base ^ b.adverse_count) b.max_delay
  next_delay-le_of_count zero e = unfold next_delay in ground arith
  next_delay-le_of_count (suc n) e =
      rw (next_delay-eq-min b c n e (omega arith), e) (capped_mono b c n)

  -- One more failure never shortens the delay, and no delay passes the largest one, for settings whose
  -- products fit an int64 and a count below 2 ^ 63 - 1.
  pub accumulate_adverse-next_delay-le :
      (next_delay b ≤ next_delay (accumulate_adverse b))
      × (next_delay (accumulate_adverse b) ≤ b.max_delay)
  accumulate_adverse-next_delay-le =
      rw next_delay-accumulate (next_delay-le_of_count b.adverse_count refl, omega arith)
