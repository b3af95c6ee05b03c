-- ===== src/Prelude/Digits.antt =====
-- Zero-padded decimals, their order and their value.
use Prim.Native.Nat.{ℕ, zero, suc, ◌+◌, ◌-◌, ◌*◌, ◌/◌, ◌%◌, ◌^◌, ◌<◌}
use mathlib.Core.Path.{◌≡◌, refl, sym, ap, ◌∙◌}
use mathlib.Core.Logic.{inl, inr}
use mathlib.Core.Bool.{false, ◌&&◌, ◌||◌}
use mathlib.Core.List.{[], ◌∷◌, ◌++◌}
use native.Mathlib.Omega.{arith}
use native.Mathlib.Nat.{
  mod-lt, div-add-mod', div-lt_iff_lt-mul, mul-le-mul_right, pow-succ', one-le-pow,
}
use blog_go.Prelude.Tests.{◌==◌, ltb, Bool-cases}
use blog_go.Prelude.Lists.{elem, length}
use blog_go.Prelude.Texts.{Text, digits, text_ltb}

-- A number of base `p` is compared by its leading part first.
ltb-split :
    (p q q' r r' : ℕ)
    → r < p
    → r' < p
    → ltb (q * p + r) (q' * p + r') ≡ (ltb q q' || (q == q' && ltb r r'))
ltb-split p q q' r r' h h' = elim (Bool-cases (ltb q q')) [
  | inl less ↦ let step = mul-le-mul_right {m = q + 1} {n = q'} p (ground arith) in ground arith
  | inr more ↦ elim (Bool-cases (q == q')) [
    | inl same ↦ let equal : q ≡ q' = ground arith in ground (arith, ap (λ n. n * p) equal)
    | inr other ↦ let step = mul-le-mul_right {m = q' + 1} {n = q} p (ground arith) in ground arith
  ]
]

module _ (w n : ℕ) where
  pow_pos : 0 < 10 ^ w
  pow_pos = one-le-pow w 10 (omega arith)

  quot_small : n < 10 ^ suc w → n / 10 ^ w < 10
  quot_small h = (div-lt_iff_lt-mul {k = 10 ^ w} {x = n} {y = 10} pow_pos).1 (rw (← pow-succ') h)

  rest_small : n % 10 ^ w < 10 ^ w
  rest_small = mod-lt n pow_pos

-- Decimals of one width are ordered as the numbers, and equal numbers leave it to what follows.
pub text_ltb-digits :
    (w n m : ℕ) (s t : Text)
    → n < 10 ^ w
    → m < 10 ^ w
    → text_ltb (digits w n ++ s) (digits w m ++ t) ≡ (ltb n m || (n == m && text_ltb s t))
unfolding digits
text_ltb-digits zero n m s t h k = ground arith
text_ltb-digits (suc w) n m s t h k =
    let p = 10 ^ w in
    ground (
      arith,
      text_ltb-digits w (n % p) (m % p) s t (rest_small w n) (rest_small w m),
      ltb-split p (n / p) (m / p) (n % p) (m % p) (rest_small w n) (rest_small w m),
      div-add-mod' n p,
      div-add-mod' m p,
    )

-- No digit is a colon.
pub elem-digits : (w n : ℕ) → n < 10 ^ w → elem 58 (digits w n) ≡ false
unfolding digits
elem-digits zero n h = refl
elem-digits (suc w) n h =
    ground (arith, quot_small w n h, elem-digits w (n % 10 ^ w) (rest_small w n))

length-digits : (w n : ℕ) → length (digits w n) ≡ w
unfolding digits
length-digits zero n = refl
length-digits (suc w) n = ap suc (length-digits w (n % 10 ^ w))

-- The number that decimals are read as.
abbrev value : Text → ℕ
value [] = 0
value (c ∷ cs) = (c - 48) * 10 ^ length cs + value cs

value-digits : (w n : ℕ) → n < 10 ^ w → value (digits w n) ≡ n
unfolding digits
value-digits zero n h = ground arith
value-digits (suc w) n h = ground (
  arith,
  ap (λ k. n / 10 ^ w * 10 ^ k) (length-digits w (n % 10 ^ w)),
  value-digits w (n % 10 ^ w) (rest_small w n),
  div-add-mod' n (10 ^ w),
)

pub digits_inj : (w v n m : ℕ) → n < 10 ^ w → m < 10 ^ v → digits w n ≡ digits v m → n ≡ m
digits_inj w v n m h k e = sym (value-digits w n h) ∙ ap value e ∙ value-digits v m k
