-- ===== src/Profiles/Named/Usage.antt =====
-- The names of the results of evaluator/latency.py, evaluator/cost.py and evaluator/judge.py.
use llm_evaluation_pipeline.Prelude.{
  ℕ, zero, suc, refl, String, Option, none, some, ◌==◌, text_comparable, number_comparable,
}
use llm_evaluation_pipeline.Number.{Float}
use llm_evaluation_pipeline.Metric.{MetricResult}
use llm_evaluation_pipeline.App.{Exception, Result, ok, raised}
use llm_evaluation_pipeline.Registry.{JudgeSettings}
use llm_evaluation_pipeline.Evaluators.{Sample, Details, error_result, make_result}
use llm_evaluation_pipeline.Evaluators.Returned.{
  Returned, Returned-ok, Returned-raised, Returned-bind, Returned-if,
}
use llm_evaluation_pipeline.Evaluators.Usage.{
  evaluate_cost, evaluate_latency, latency_of, or_latency,
}
use llm_evaluation_pipeline.Judge.{
  Providers, Reply, evaluate_judge, attempts, after_attempt, attempt_judge, judge_reply, fifth,
  null, object, other, call_llm, parse_response, prompt_of,
}
use llm_evaluation_pipeline.Profiles.Named.{Named, named, error_result-Named}

module _ {F : Type 0} ⦃f : Float F⦄ where
  abbrev IsVerdict : Option (MetricResult F (Details F)) → Type 0
  IsVerdict none = Unit
  IsVerdict (some r) = Named "llm_judge" r

  pub evaluate_latency-Named : (sample : Sample F) → Named "latency" (evaluate_latency sample)
  unfolding evaluate_latency latency_of make_result
  evaluate_latency-Named sample =
      go (or_latency sample.conversation.latency_ms sample.metadata_latency_ms)
    where
      go : (l : Option F) → Named "latency" (latency_of l)
      go none = named _ _ refl
      go (some l) = named _ _ refl

  pub evaluate_cost-Named : (sample : Sample F) → Named "cost" (evaluate_cost sample)
  unfolding evaluate_cost make_result
  evaluate_cost-Named sample = named _ _ refl

  after_attempt-Named :
      (failed_after : ℕ → Exception → String) (m a : ℕ)
      (o : Result (Option (MetricResult F (Details F)))) (rest : MetricResult F (Details F))
      → Returned IsVerdict o
      → Named "llm_judge" rest
      → Named "llm_judge" (after_attempt failed_after m a o rest)
  unfolding after_attempt Returned
  after_attempt-Named failed_after m a (ok (some r)) rest h k = h
  after_attempt-Named failed_after m a (ok none) rest h k = k
  after_attempt-Named failed_after m a (raised e) rest h k =
      Returned-if (Named {F = F} "llm_judge") (suc a == m) _ rest (error_result-Named F _ _ _) k

  attempts-Named :
      (failed_after : ℕ → Exception → String)
      (run : ℕ → Result (Option (MetricResult F (Details F))))
      → ((a : ℕ) → Returned IsVerdict (run a))
      → (m a n : ℕ) → Named "llm_judge" (attempts failed_after run m a n)
  unfolding attempts error_result
  attempts-Named failed_after run h m a zero = named _ _ refl
  attempts-Named failed_after run h m a (suc n) =
      after_attempt-Named failed_after m a (run a) _ (h a)
        (attempts-Named failed_after run h m (suc a) n)

  judge_reply-IsVerdict :
      (s : JudgeSettings F) (latency : F) (r : Reply F)
      → Returned IsVerdict (judge_reply s latency r)
  unfolding judge_reply make_result
  judge_reply-IsVerdict s latency null = Returned-ok _ _ tt
  judge_reply-IsVerdict s latency other = Returned-raised _ _
  judge_reply-IsVerdict s latency (object score reason criteria) =
      Returned-bind IsVerdict (fifth score) _ λ x. Returned-ok _ _ (named _ _ refl)

  attempt_judge-IsVerdict :
      (p : Providers F) (loads : String → Result (Reply F)) (s : JudgeSettings F) (prompt : String)
      (a : ℕ)
      → Returned IsVerdict (attempt_judge p loads s prompt a)
  unfolding attempt_judge
  attempt_judge-IsVerdict p loads s prompt a =
      Returned-bind IsVerdict (call_llm p a s prompt) _ λ text.
        Returned-bind IsVerdict (parse_response loads text) _
          λ reply. judge_reply-IsVerdict s _ reply

  pub evaluate_judge-Named :
      (p : Providers F) (loads : String → Result (Reply F))
      (format : String → String → String → String) (failed_after : ℕ → Exception → String)
      (max_retries : ℕ) (s : JudgeSettings F) (sample : Sample F)
      → Named "llm_judge" (evaluate_judge p loads format failed_after max_retries s sample)
  unfolding evaluate_judge make_result attempt_judge
  evaluate_judge-Named p loads format failed_after max_retries s sample =
      Returned-if (Named {F = F} "llm_judge") _ _ _ (named _ _ refl) (
        attempts-Named failed_after (attempt_judge p loads s (prompt_of format sample))
          (attempt_judge-IsVerdict p loads s (prompt_of format sample)) max_retries 0 max_retries)
