-- ===== src/Prelude/Texts.antt =====
-- Texts as lists of code points, for the code that looks into them.
use Prim.Native.Char.{code}
use Prim.Native.Nat.{ℕ, zero, suc, ◌+◌, ◌/◌, ◌%◌, ◌^◌}
use Prim.Native.String.{String}
use mathlib.Core.Path.{◌≡◌, refl}
use mathlib.Core.Bool.{Bool, true, false, ◌&&◌, ◌||◌}
use mathlib.Core.Option.{Option, none, some}
use mathlib.Core.List.{List, [], ◌∷◌, ◌++◌}
use native.Mathlib.Omega.{arith}
use blog_go.Prelude.Tests.{if◌then◌else◌, ◌==◌, ltb}
use blog_go.Prelude.Lists.{elem}

abbrev pub Text : Type 0
Text = List ℕ

abbrev pub codes : String → Text
codes String.[] = []
codes (String.◌∷◌ c s) = code c ∷ codes s

-- The parts before and after the first place of a code point, if there is one: `strings.Cut`, and
-- `strings.SplitN(s, sep, 2)`.
unfoldable pub cut : ℕ → Text → Option (Text × Text)
cut at [] = none
cut at (c ∷ cs) =
    let rest = cut at cs in
    if c == at
    then some ([], cs)
    else elim rest [ none ↦ none | some (before, after) ↦ some (c ∷ before, after) ]

abbrev pub text_eq : Text → Text → Bool
text_eq [] [] = true
text_eq [] (d ∷ ds) = false
text_eq (c ∷ cs) [] = false
text_eq (c ∷ cs) (d ∷ ds) = let rest = text_eq cs ds in c == d && rest

-- The order of the bytes, as `memcmp` has it.
abbrev pub text_ltb : Text → Text → Bool
text_ltb [] [] = false
text_ltb [] (d ∷ ds) = true
text_ltb (c ∷ cs) [] = false
text_ltb (c ∷ cs) (d ∷ ds) = let rest = text_ltb cs ds in ltb c d || (c == d && rest)

-- `%0wd` of a number that has no more than `w` digits.
unfoldable pub digits : ℕ → ℕ → Text
digits zero n = []
digits (suc w) n = (48 + n / 10 ^ w) ∷ digits w (n % 10 ^ w)

pub text_eq→eq : (a b : Text) → text_eq a b ≡ true → a ≡ b
text_eq→eq [] [] h = refl
text_eq→eq [] (d ∷ ds) h = absurd (ground arith)
text_eq→eq (c ∷ cs) [] h = absurd (ground arith)
text_eq→eq (c ∷ cs) (d ∷ ds) h = ground (arith, text_eq→eq cs ds)

pub text_eq_self : (a : Text) → text_eq a a ≡ true
text_eq_self [] = refl
text_eq_self (c ∷ cs) = ground (arith, text_eq_self cs)

pub text_ltb_irrefl : (a : Text) → text_ltb a a ≡ false
text_ltb_irrefl [] = refl
text_ltb_irrefl (c ∷ cs) = ground (arith, text_ltb_irrefl cs)

pub text_ltb_asymm : (a b : Text) → text_ltb a b ≡ true → text_ltb b a ≡ false
text_ltb_asymm [] [] h = refl
text_ltb_asymm [] (d ∷ ds) h = refl
text_ltb_asymm (c ∷ cs) [] h = absurd (ground arith)
text_ltb_asymm (c ∷ cs) (d ∷ ds) h = ground (arith, text_ltb_asymm cs ds)

pub text_ltb_trans :
    (a b c : Text) → text_ltb a b ≡ true → text_ltb b c ≡ true → text_ltb a c ≡ true
text_ltb_trans [] [] c h k = k
text_ltb_trans [] (b ∷ bs) [] h k = absurd (ground arith)
text_ltb_trans [] (b ∷ bs) (c ∷ cs) h k = refl
text_ltb_trans (a ∷ rest) [] c h k = absurd (ground arith)
text_ltb_trans (a ∷ rest) (b ∷ bs) [] h k = absurd (ground arith)
text_ltb_trans (a ∷ rest) (b ∷ bs) (c ∷ cs) h k = ground (arith, text_ltb_trans rest bs cs)

pub cut-append :
    (at : ℕ) (xs ys : Text) → elem at xs ≡ false → cut at (xs ++ at ∷ ys) ≡ some (xs, ys)
unfolding cut
cut-append at [] ys h = ground arith
cut-append at (x ∷ xs) ys h = ground (arith, cut-append at xs ys)

pub text_ltb_total : (a b : Text) → text_ltb a b ≡ false → text_eq a b ≡ false → text_ltb b a ≡ true
text_ltb_total [] [] h k = absurd (ground arith)
text_ltb_total [] (d ∷ ds) h k = absurd (ground arith)
text_ltb_total (c ∷ cs) [] h k = refl
text_ltb_total (c ∷ cs) (d ∷ ds) h k = ground (arith, text_ltb_total cs ds)
