-- ===== src/Processors/Backoff.antt =====
-- internal/processors/backoff.go. `int` and `time.Duration` are 64-bit patterns: a value from
-- 2 ^ 63 on stands for a negative number.
pub mod Growth
use blog_go.Prelude.{ℕ, zero, suc, ◌+◌, ◌-◌, ◌*◌, ◌%◌, ◌^◌, Bool, ltb, leb, ◌==◌, if◌then◌else◌}

pub record ExponentialBackOff : Type 0 where
  pub base : ℕ
  pub coefficient : ℕ
  pub max_delay : ℕ
  pub adverse_count : ℕ

unfoldable pub new_exponential_back_off : ℕ → ℕ → ℕ → ExponentialBackOff
new_exponential_back_off base coefficient max_delay = record {
  base = base;
  coefficient = coefficient;
  max_delay = max_delay;
  adverse_count = 0;
}

abbrev pub word : ℕ
word = 2 ^ 64

-- `a >= b` on signed words.
abbrev pub signed_ge : ℕ → ℕ → Bool
signed_ge a b = leb ((b + 2 ^ 63) % word) ((a + 2 ^ 63) % word)

-- The `for` loop of `NextDelay` with `rounds` rounds left.
grow : ExponentialBackOff → ℕ → ℕ → ℕ
grow b zero delay = delay
grow b (suc rounds) delay =
    let next = delay * b.base % word in
    let rest = grow b rounds next in if signed_ge next b.max_delay then b.max_delay else rest

-- The rounds of `for i := 1; i < b.adverseCount; i++`: none when the count is negative.
rounds_of : ℕ → ℕ
rounds_of adverse = if ltb adverse (2 ^ 63) then adverse - 1 else 0

unfoldable pub next_delay : ExponentialBackOff → ℕ
unfolding grow rounds_of
next_delay b = if b.adverse_count == 0 then 0 else grow b (rounds_of b.adverse_count) b.coefficient

unfoldable pub accumulate_adverse : ExponentialBackOff → ExponentialBackOff
accumulate_adverse b = record b { adverse_count = (b.adverse_count + 1) % word }

unfoldable pub clear_adverse : ExponentialBackOff → ExponentialBackOff
clear_adverse b = record b { adverse_count = 0 }
