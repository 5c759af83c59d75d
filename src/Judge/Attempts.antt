-- ===== src/Judge/Attempts.antt =====
-- The retries of evaluator/judge.py.

use llm_evaluation_pipeline.Prelude.{
  ℕ, zero, suc, ◌+◌, ◌≡◌, refl, ap, String, Option, none, some, List, [], ◌∷◌, not, if◌then◌else◌,
  number_comparable, arith,
}
use llm_evaluation_pipeline.Number.{Float}
use llm_evaluation_pipeline.Metric.{MetricResult}
use llm_evaluation_pipeline.App.{Exception, Result, ok, raised}
use llm_evaluation_pipeline.Registry.{JudgeSettings}
use llm_evaluation_pipeline.Text.{is_text}
use llm_evaluation_pipeline.Evaluators.{Sample, Details, error_result}
use llm_evaluation_pipeline.Judge.{
  Providers, Reply, attempt_judge, after_attempt, attempts, prompt_of, evaluate_judge, no_answer,
  gave_up,
}

module _ {F : Type 0} ⦃f : Float F⦄ where
  -- the outcomes of attempts, judged without a loop: the first result, else the last error
  unfoldable pub first_result :
      List (Result (Option (MetricResult F (Details F)))) → Option (MetricResult F (Details F))
  first_result [] = none
  first_result (ok (some r) ∷ os) = some r
  first_result (ok none ∷ os) = first_result os
  first_result (raised e ∷ os) = first_result os

  unfoldable pub last_error : List (Result (Option (MetricResult F (Details F)))) → Option Exception
  last_error [] = none
  last_error (raised e ∷ []) = some e
  last_error (ok r ∷ []) = none
  last_error (o ∷ o' ∷ os) = last_error (o' ∷ os)

  unfoldable pub summary :
      (Exception → String)
      → Option (MetricResult F (Details F))
      → Option Exception
      → MetricResult F (Details F)
  summary say (some r) e = r
  summary say none (some e) = error_result "llm_judge" "1.0.0" (say e)
  summary say none none = gave_up

  -- the outcomes of `n` attempts, from this one on
  unfoldable pub outcomes :
      (ℕ → Result (Option (MetricResult F (Details F))))
      → ℕ
      → ℕ
      → List (Result (Option (MetricResult F (Details F))))
  outcomes run attempt zero = []
  outcomes run attempt (suc n) = run attempt ∷ outcomes run (suc attempt) n

module _ {F : Type 0} ⦃f : Float F⦄ (failed_after : ℕ → Exception → String)
    (run : ℕ → Result (Option (MetricResult F (Details F)))) where
  attempts-summary :
      (max_retries attempt n : ℕ)
      → attempt + n ≡ max_retries
      → attempts failed_after run max_retries attempt n
        ≡ summary
            (failed_after max_retries)
            (first_result (outcomes run attempt n))
            (last_error (outcomes run attempt n))
  unfolding attempts outcomes first_result last_error summary after_attempt
  attempts-summary m attempt zero h = refl
  attempts-summary m attempt (suc zero) h = go (run attempt)
    where
      go :
          (o : Result (Option (MetricResult F (Details F))))
          → after_attempt failed_after m attempt o gave_up
            ≡ summary (failed_after m) (first_result (o ∷ [])) (last_error (o ∷ []))
      go (ok (some r)) = refl
      go (ok none) = refl
      go (raised e) = ground arith
  attempts-summary m attempt (suc (suc n)) h =
      go (run attempt) (run (suc attempt))
        (attempts-summary m (suc attempt) (suc n) (omega (arith, h)))
    where
      go :
          (o o' : Result (Option (MetricResult F (Details F))))
          → after_attempt failed_after m
              (suc attempt)
              o'
              (attempts failed_after run m (suc (suc attempt)) n)
            ≡ summary
                (failed_after m)
                (first_result (o' ∷ outcomes run (suc (suc attempt)) n))
                (last_error (o' ∷ outcomes run (suc (suc attempt)) n))
          → after_attempt failed_after m attempt o (
              after_attempt failed_after m
                (suc attempt)
                o'
                (attempts failed_after run m (suc (suc attempt)) n))
            ≡ summary
                (failed_after m)
                (first_result (o ∷ o' ∷ outcomes run (suc (suc attempt)) n))
                (last_error (o ∷ o' ∷ outcomes run (suc (suc attempt)) n))
      go (ok (some r)) o' k = refl
      go (ok none) o' k = k
      go (raised e) o' k = ground arith

module _ {F : Type 0} ⦃f : Float F⦄ (p : Providers F) (loads : String → Result (Reply F))
    (format : String → String → String → String) (failed_after : ℕ → Exception → String) where
  -- The judge's loop comes to what its at most `max_retries` attempts come to, read without a loop: the
  -- result of the first attempt that has one; without any, the error of the last attempt if that raised,
  -- and else that the retries are exceeded. Without an answer nothing is asked.
  pub evaluate_judge-summary :
      (max_retries : ℕ) (s : JudgeSettings F) (sample : Sample F)
      → evaluate_judge p loads format failed_after max_retries s sample ≡ (
          let os = outcomes (attempt_judge p loads s (prompt_of format sample)) 0 max_retries in
          if not (is_text sample.answer)
          then no_answer
          else summary (failed_after max_retries) (first_result os) (last_error os))
  unfolding evaluate_judge
  evaluate_judge-summary max_retries s sample =
      ap (λ r. if not (is_text sample.answer) then no_answer else r)
        (attempts-summary failed_after (attempt_judge p loads s (prompt_of format sample))
          max_retries 0 max_retries (omega arith))
