-- ===== src/Evaluators/Usage.antt =====
-- evaluator/cost.py and evaluator/latency.py.
use llm_evaluation_pipeline.Prelude.{
  ℕ, Option, none, some, List, [], ◌∷◌, true, if◌then◌else◌, length,
}
use llm_evaluation_pipeline.Number.{Float, zero_float, one_float, min_float}
use llm_evaluation_pipeline.Metric.{MetricResult}
use llm_evaluation_pipeline.Models.{ConversationInput}
use llm_evaluation_pipeline.Evaluators.{Sample, Details, latency_details, cost_details, make_result}

module _ {F : Type 0} ⦃f : Float F⦄ where
  -- the price of so many tokens at so much per thousand
  abbrev pub price : ℕ → F → F
  price tokens per_thousand = f.mul (f.div (f.lit tokens 0) (f.lit 1000 0)) per_thousand

  unfoldable pub estimate_cost : ConversationInput F → F
  estimate_cost conversation =
      f.round
        (f.add (price conversation.input_tokens (f.lit 15 5))
          (price conversation.output_tokens (f.lit 6 4)))
        8

  -- `CostEvaluator.evaluate`
  unfoldable pub evaluate_cost : Sample F → MetricResult F (Details F)
  evaluate_cost sample =
      let cost = estimate_cost sample.conversation in
      make_result "cost" "1.0.0" (min_float (f.div cost (f.lit 1 2)) one_float)
        (f.le cost (f.lit 1 2))
        (cost_details cost sample.conversation.input_tokens sample.conversation.output_tokens)

  -- `x or y`: a latency of zero counts as none
  unfoldable pub or_latency : Option F → Option F → Option F
  or_latency none y = y
  or_latency (some x) y = if f.eq x zero_float then y else some x

  unfoldable pub latency_of : Option F → MetricResult F (Details F)
  latency_of none =
      make_result "latency" "1.0.0" zero_float true
        (latency_details zero_float (some "no_latency_data"))
  latency_of (some l) =
      make_result "latency" "1.0.0" (min_float (f.div l (f.lit 10000 0)) one_float)
        (f.le l (f.lit 2000 0)) (latency_details l none)

  -- `LatencyEvaluator.evaluate`
  unfoldable pub evaluate_latency : Sample F → MetricResult F (Details F)
  evaluate_latency sample =
      latency_of (or_latency sample.conversation.latency_ms sample.metadata_latency_ms)

  -- `(time.time() - start) * 1000` for each pair of clock readings
  unfoldable pub durations : List (F × F) → List F
  durations [] = []
  durations ((start, end_time) ∷ rest) =
      f.mul (f.sub end_time start) (f.lit 1000 0) ∷ durations rest

  -- `measure_latency` of a function that returns, from the readings of the clock around its runs
  unfoldable pub measure_latency : List (F × F) → F
  measure_latency readings =
      f.round (f.div (f.sum (durations readings)) (f.lit (length readings) 0)) 3
