-- ===== src/Evaluators/Range.antt =====
-- The range of a score, for every evaluator.
pub mod Fixed
use Prim.Native.Nat.{◌<◌}
use llm_evaluation_pipeline.Prelude.{ℕ, ◌≤◌, ◌≡◌, refl, String, Bool, true, false, if◌then◌else◌}
use llm_evaluation_pipeline.Number.{Float, zero_float, one_float}
use llm_evaluation_pipeline.Metric.{MetricResult}
use llm_evaluation_pipeline.App.{Exception, Result, ok, raised}
use llm_evaluation_pipeline.Evaluators.{Details, ◌>>=◌, fraction, caught, error_result}

-- What the theorems use of quotients of whole numbers and of rounding to four places.
pub record IsFraction (F : Type 0) ⦃f : Float F⦄ : Type 0 where
  pub zero_le_zero : f.le zero_float zero_float ≡ true
  pub zero_le_one : f.le zero_float one_float ≡ true
  pub div_nonneg : (k n : ℕ) → 0 < n → f.le zero_float (f.div (f.lit k 0) (f.lit n 0)) ≡ true
  pub div_le_one : (k n : ℕ) → 0 < n → k ≤ n → f.le (f.div (f.lit k 0) (f.lit n 0)) one_float ≡ true
  -- 0 and 1 are values of `round`, which does not swap numbers
  pub round_nonneg : (x : F) → f.le zero_float x ≡ true → f.le zero_float (f.round x 4) ≡ true
  pub round_le_one : (x : F) → f.le x one_float ≡ true → f.le (f.round x 4) one_float ≡ true

module _ {F : Type 0} ⦃f : Float F⦄ where
  abbrev pub InRange : F → Type 0
  InRange x = (f.le zero_float x ≡ true) × (f.le x one_float ≡ true)

  pub fraction-InRange : IsFraction F → (k n : ℕ) → 0 < n → k ≤ n → InRange (fraction k n)
  unfolding fraction
  fraction-InRange laws k n h i =
      (laws.round_nonneg _ (laws.div_nonneg k n h), laws.round_le_one _ (laws.div_le_one k n h i))

  pub zero-InRange : IsFraction F → InRange zero_float
  zero-InRange laws = (laws.zero_le_zero, laws.zero_le_one)

  -- a score in range
  abbrev pub HasScore : MetricResult F (Details F) → Type 0
  HasScore m = InRange m.score

  pub error_result-HasScore :
      IsFraction F → (name version e : String) → HasScore (error_result name version e)
  unfolding error_result
  error_result-HasScore laws name version e = zero-InRange laws
