-- ===== src/Number/Fixed.antt =====
-- Decimal fractions of eight places with an infinity: numbers at which tests and witnesses run.
use llm_evaluation_pipeline.Prelude.{
  ℕ, ◌+◌, ◌-◌, ◌*◌, ◌/◌, ◌^◌, List, [], ◌∷◌, Bool, true, false, arith, leb, ◌&&◌, if◌then◌else◌,
}
use llm_evaluation_pipeline.Prelude.Int.{
  ℤ, pos, pos_part, neg_part, sub_ℕ, ltb_ℤ, leb_ℤ, ◌+ℤ◌, ◌-ℤ◌, ◌*ℤ◌,
}
use llm_evaluation_pipeline.Number.{Float, IsFloat}

-- `decimal n` stands for n / 10^8.
pub data Fixed : Type 0 where
  decimal : ℤ → Fixed
  infinity : Fixed
  minus_infinity : Fixed

abbrev scale : ℕ
scale = 100_000_000

abbrev both : (ℤ → ℤ → ℤ) → Fixed → Fixed → Fixed
both op (decimal a) (decimal b) = decimal (op a b)
both op _ _ = infinity

-- the magnitude of `a` under `g`, with the sign of `a`
abbrev on_size : (ℕ → ℕ) → ℤ → ℤ
on_size g a = sub_ℕ (g (pos_part a)) (g (neg_part a))

abbrev less : Fixed → Fixed → Bool
less (decimal a) (decimal b) = ltb_ℤ a b
less (decimal a) infinity = true
less (decimal a) minus_infinity = false
less infinity _ = false
less minus_infinity minus_infinity = false
less minus_infinity _ = true

abbrev at_most : Fixed → Fixed → Bool
at_most (decimal a) (decimal b) = leb_ℤ a b
at_most (decimal a) infinity = true
at_most (decimal a) minus_infinity = false
at_most infinity infinity = true
at_most infinity _ = false
at_most minus_infinity _ = true

-- the number of units in 10^(-n), at least one
abbrev grain : ℕ → ℕ
grain n = 10 ^ (8 - n)

abbrev nearest : ℕ → ℕ → ℕ
nearest g a = if leb (g * (a / g) + g) (a + g / 2) then g * (a / g) + g else g * (a / g)

unfoldable pub sum : Fixed → Fixed → Fixed
unfolding ◌+ℤ◌
sum = both ◌+ℤ◌

unfoldable pub difference : Fixed → Fixed → Fixed
unfolding ◌-ℤ◌
difference (decimal a) infinity = minus_infinity
difference a b = both ◌-ℤ◌ a b

unfoldable pub product : Fixed → Fixed → Fixed
unfolding ◌*ℤ◌
product = both λ a b. on_size (λ n. n / scale) (a *ℤ b)

unfoldable pub quotient : Fixed → Fixed → Fixed
unfolding ◌-ℤ◌
quotient = both λ a b.
    on_size (λ n. n * scale / (pos_part b + neg_part b)) (if ltb_ℤ b (pos 0) then pos 0 -ℤ a else a)

unfoldable pub total : List Fixed → Fixed
unfolding sum
total [] = decimal (pos 0)
total (x ∷ xs) = sum x (total xs)

unfoldable pub rounded : Fixed → ℕ → Fixed
rounded (decimal x) n = decimal (on_size (nearest (grain n)) x)
rounded x n = x

instance abbrev pub fixed_float : Float Fixed
fixed_float = record {
  lit = λ m e. decimal (pos (m * 10 ^ (8 - e)));
  inf = infinity;
  add = sum;
  sub = difference;
  mul = product;
  div = quotient;
  lt = less;
  le = at_most;
  eq = λ a b. at_most a b && at_most b a;
  round = rounded;
  sum = total;
}

pub Fixed-IsFloat : IsFloat Fixed
unfolding difference
Fixed-IsFloat = record {
  le_trans = λ x y z h k. ground arith;
  lt_of_eq = λ x y z h. ground arith;
  lt_of_eq_right = λ x y z h. ground arith;
  zero_lt_neg = λ x. ground arith;
  lit_nonneg = λ m e. ground arith;
  not_eq_of_lt = λ x y h. ground arith;
}
