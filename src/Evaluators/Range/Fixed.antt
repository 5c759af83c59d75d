-- ===== src/Evaluators/Range/Fixed.antt =====
-- Quotients and roundings of the decimal fractions of Number/Fixed.
use native.Mathlib.Nat.{div-le_of_le-mul}
use llm_evaluation_pipeline.Prelude.{ℕ, ◌*◌, ◌/◌, ◌≤◌, ◌<◌, ◌≡◌, refl, Bool, true, arith}
use llm_evaluation_pipeline.Prelude.Int.{pos, negsuc, ◌-ℤ◌}
use llm_evaluation_pipeline.Number.{zero_float, one_float}
use llm_evaluation_pipeline.Number.Fixed.{
  Fixed, fixed_float, decimal, infinity, minus_infinity, quotient, rounded,
}
use llm_evaluation_pipeline.Evaluators.Range.{IsFraction}

module _ where
  quotient_le :
      (k n : ℕ) → 0 < n → k ≤ n → (k * 100_000_000) * 100_000_000 / (n * 100_000_000) ≤ 100_000_000
  quotient_le k n h i = div-le_of_le-mul _ (omega (arith, h, i))

  abbrev le : Fixed → Fixed → Bool
  le = fixed_float.le

  div_nonneg :
      (k n : ℕ)
      → 0 < n
      → le zero_float (quotient (fixed_float.lit k 0) (fixed_float.lit n 0)) ≡ true
  unfolding quotient ◌-ℤ◌
  div_nonneg k n h = ground arith

  div_le_one :
      (k n : ℕ)
      → 0 < n
      → k ≤ n
      → le (quotient (fixed_float.lit k 0) (fixed_float.lit n 0)) one_float ≡ true
  unfolding quotient ◌-ℤ◌
  div_le_one k n h i = ground (arith, quotient_le k n h i)

  round_nonneg : (x : Fixed) → le zero_float x ≡ true → le zero_float (rounded x 4) ≡ true
  unfolding rounded
  round_nonneg (decimal (pos n)) h = ground arith
  round_nonneg (decimal (negsuc n)) h = ground arith
  round_nonneg infinity h = h
  round_nonneg minus_infinity h = h

  round_le_one : (x : Fixed) → le x one_float ≡ true → le (rounded x 4) one_float ≡ true
  unfolding rounded
  round_le_one (decimal (pos n)) h = ground arith
  round_le_one (decimal (negsuc n)) h = ground arith
  round_le_one infinity h = h
  round_le_one minus_infinity h = h

  pub Fixed-IsFraction : IsFraction Fixed
  Fixed-IsFraction = record {
    zero_le_zero = refl;
    zero_le_one = refl;
    div_nonneg = div_nonneg;
    div_le_one = div_le_one;
    round_nonneg = round_nonneg;
    round_le_one = round_le_one;
  }
