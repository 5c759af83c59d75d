-- ===== src/Gate.antt =====
-- `evaluate_gate` of app/services/quality_gate_service.py.
pub mod Checks
pub mod Outcome
pub mod Monotone
mod Tests
use llm_evaluation_pipeline.Prelude.{
  String, Bool, true, false, ◌&&◌, Option, none, some, List, [], ◌∷◌, ◌==◌, text_comparable,
  if◌then◌else◌,
}
use llm_evaluation_pipeline.Dict.{Dict, lookup, insert, values}
use llm_evaluation_pipeline.Number.{Float, zero_float, one_float}
use llm_evaluation_pipeline.Metric.{Direction, higher_is_better, lower_is_better, metric_direction}

-- The value of one metric in `thresholds`: `{"min": …}` or `{"max": …}`.
pub record Threshold (F : Type 0) : Type 0 where
  pub min : Option F
  pub max : Option F

-- An entry of `results["metric_results"]`.
pub record MetricEntry (F : Type 0) : Type 0 where
  pub metric : String
  pub score : F
  pub error : Option String

-- `results`: its numeric entries (`None` is kept), the fraction of `results["hallucination"]` if that
-- is a non-empty dictionary, and `results["metric_results"]`.
pub record Results (F : Type 0) : Type 0 where
  pub numbers : Dict (Option F)
  pub hallucination : Option (Option F)
  pub metric_results : Option (List (MetricEntry F))

pub record Check (F : Type 0) : Type 0 where
  pub value : F
  pub threshold : F
  pub passed : Bool
  pub direction : Direction

pub data GateOutcome : Type 0 where
  pass fail : GateOutcome

pub record GateResult (F : Type 0) : Type 0 where
  pub status : GateOutcome
  pub checks : Dict (Check F)

module _ {F : Type 0} where
  -- `x.get(key, default)` for a key that may be missing
  abbrev pub get_or : Option F → F → F
  get_or none d = d
  get_or (some x) d = x

  -- the first entry of the metric that has no error
  unfoldable pub find_score : String → List (MetricEntry F) → Option F
  find_score name [] = none
  find_score name (mr ∷ rest) = elim mr.error [
    | none ↦ if mr.metric == name then some mr.score else find_score name rest
    | some e ↦ find_score name rest
  ]

  unfoldable pub find_score_in : String → Option (List (MetricEntry F)) → Option F
  unfolding find_score
  find_score_in name none = none
  find_score_in name (some entries) = find_score name entries

module _ {F : Type 0} ⦃f : Float F⦄ where
  -- after the direct value: the hallucination report, then the metric results
  unfoldable pub extract_indirect : String → Results F → Option F
  unfolding find_score_in
  extract_indirect name r =
      let from_entries = find_score_in name r.metric_results in
      if name == "hallucination_fraction_unsupported"
      then (elim r.hallucination [
        | none ↦ from_entries
        | some fraction ↦ some (f.sub one_float (get_or fraction one_float))
      ])
      else from_entries

  unfoldable pub extract_metric_value : String → Results F → Option F
  unfolding extract_indirect
  extract_metric_value name r = elim (lookup name r.numbers) [
    | none ↦ extract_indirect name r
    | some none ↦ extract_indirect name r
    | some (some x) ↦ some x
  ]

  -- DEFAULT_THRESHOLDS
  abbrev pub default_thresholds : Dict (Threshold F)
  default_thresholds =
      ("relevance", record { min = some (f.lit 80 2); max = none })
      ∷ ("hallucination_fraction_unsupported", record { min = none; max = some (f.lit 10 2) })
      ∷ ("latency_ms", record { min = none; max = some (f.lit 2000 0) })
      ∷ ("estimated_cost", record { min = none; max = some (f.lit 1 2) })
      ∷ []

  unfoldable pub make_check : Direction → Threshold F → F → Check F
  make_check higher_is_better t value =
      let min_val = get_or t.min zero_float in
      record {
        value = value;
        threshold = min_val;
        passed = f.le min_val value;
        direction = higher_is_better;
      }
  make_check lower_is_better t value =
      let max_val = get_or t.max f.inf in
      record {
        value = value;
        threshold = max_val;
        passed = f.le value max_val;
        direction = lower_is_better;
      }

  -- the body of the loop up to the assignment; `none` is `continue`
  unfoldable pub check_metric : String → Threshold F → Results F → Option (Check F)
  check_metric name t r = elim (lookup name metric_direction) [
    | none ↦ none
    | some direction ↦ (elim (extract_metric_value name r) [
      | none ↦ none
      | some value ↦ some (make_check direction t value)
    ])
  ]

  abbrev pub add_check : String → Option (Check F) → Dict (Check F) → Dict (Check F)
  add_check name none checks = checks
  add_check name (some c) checks = insert name c checks

  unfoldable pub run_checks : Dict (Threshold F) → Results F → Dict (Check F) → Dict (Check F)
  run_checks [] r checks = checks
  run_checks ((name, t) ∷ rest) r checks =
      run_checks rest r (add_check name (check_metric name t r) checks)

  -- `all(c["passed"] for c in …)`, true of no checks
  unfoldable pub all_passed : List (Check F) → Bool
  all_passed [] = true
  all_passed (c ∷ cs) = c.passed && all_passed cs

  unfoldable pub evaluate_gate : Dict (Threshold F) → Results F → GateResult F
  evaluate_gate thresholds results =
      let checks = run_checks thresholds results [] in
      record { status = if all_passed (values checks) then pass else fail; checks = checks }
