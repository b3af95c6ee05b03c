-- ===== src/Processors/Events/Pacing.antt =====
-- How long the loop of internal/processors/postEventsProcessor.go waits.
use blog_go.Prelude.{
  ℕ, zero, suc, ◌+◌, ◌*◌, ◌^◌, ◌<◌, min, ◌≡◌, refl, ◌∙◌, ap, List, [], ◌∷◌, ◌++◌, arith,
}
use blog_go.Errs.{Error}
use blog_go.Action.{ok, err, Action}
use blog_go.Processors.Backoff.{ExponentialBackOff, next_delay, accumulate_adverse, clear_adverse}
use blog_go.Processors.Backoff.Growth.{IsConfigured, next_delay-eq-min}
use blog_go.Processors.Events.{Signal, fired, Processor, round, loop}

abbrev pub fires : ℕ → List Signal
fires zero = []
fires (suc n) = fired ∷ fires n

abbrev pub with_count : ExponentialBackOff → ℕ → ExponentialBackOff
with_count b n = record b { adverse_count = n }

counted :
    (b : ExponentialBackOff) (m : ℕ)
    → m + 1 < 2 ^ 64
    → accumulate_adverse (with_count b m) ≡ with_count b (m + 1)
unfolding accumulate_adverse
counted b m h = ground arith

cleared : (b : ExponentialBackOff) → next_delay (clear_adverse b) ≡ 0
unfolding next_delay clear_adverse
cleared b = refl

module _ {W : Type 0} (cycle : Action W (Unit {0})) where
  settled_fail :
      (p : Processor W)
      → ((e : Error) × ((cycle p.world).0 ≡ err e))
      → (round cycle fired p).backoff ≡ accumulate_adverse p.backoff
  unfolding round
  settled_fail p (e, failed) = ground arith

  settled_ok :
      (p : Processor W)
      → (cycle p.world).0 ≡ ok tt
      → (round cycle fired p).backoff ≡ clear_adverse p.backoff
  unfolding round
  settled_ok p h = ground arith

  -- Failures add up over the rounds.
  loop-count :
      (b : ExponentialBackOff) (n m : ℕ) (p : Processor W)
      → p.backoff ≡ with_count b m
      → m + n < 2 ^ 64
      → ((w : W) → (e : Error) × ((cycle w).0 ≡ err e))
      → (loop cycle (fires n) p).backoff ≡ with_count b (m + n)
  unfolding loop
  loop-count b zero m p same h fails = same ∙ ap (with_count b) (omega arith)
  loop-count b (suc n) m p same h fails =
      loop-count b n (m + 1) (round cycle fired p)
        (settled_fail p (fails p.world) ∙ ap accumulate_adverse same ∙ counted b m (omega arith))
        (omega arith) fails
      ∙ ap (with_count b) (omega arith)

  loop-last :
      (p : Processor W) (n : ℕ)
      → (cycle (loop cycle (fires n) p).world).0 ≡ ok tt
      → (loop cycle (fires n ++ fired ∷ []) p).backoff
        ≡ clear_adverse (loop cycle (fires n) p).backoff
  unfolding loop
  loop-last p zero h = settled_ok p h
  loop-last p (suc n) h = loop-last (round cycle fired p) n h

  -- While every cycle fails, the wait before round n + 2 of the loop is the coefficient times the base to
  -- the power n, capped at the largest delay; for a backoff that starts with no failures, with settings
  -- whose products fit an int64, and fewer than 2 ^ 63 rounds.
  pub loop-next_delay :
      (b : ExponentialBackOff) (n : ℕ) (p : Processor W)
      → IsConfigured b
      → p.backoff ≡ with_count b 0
      → suc n < 2 ^ 63
      → ((w : W) → (e : Error) × ((cycle w).0 ≡ err e))
      → next_delay (loop cycle (fires (suc n)) p).backoff
        ≡ min (b.coefficient * b.base ^ n) b.max_delay
  loop-next_delay b n p c start h fails =
      let last = with_count b (0 + suc n) in
      let config : IsConfigured last = record {
        base_pos = c.base_pos;
        within = c.within;
        fits = c.fits;
      } in
      ap next_delay (loop-count b (suc n) 0 p start (omega arith) fails)
      ∙ next_delay-eq-min last config n (omega arith) h

  -- A cycle that succeeds makes the next wait 0, however many have failed before it.
  pub loop-recovers :
      (p : Processor W) (n : ℕ)
      → (cycle (loop cycle (fires n) p).world).0 ≡ ok tt
      → next_delay (loop cycle (fires n ++ fired ∷ []) p).backoff ≡ 0
  loop-recovers p n h = ap next_delay (loop-last p n h) ∙ cleared (loop cycle (fires n) p).backoff
