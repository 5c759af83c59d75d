-- ===== src/Gate/Tests.antt =====
-- Runs of `evaluate_gate` on the default thresholds, and the theorems at inputs that meet their
-- hypotheses.
use llm_evaluation_pipeline.Prelude.{◌≡◌, ◌↔◌, refl, some, none, [], ◌∷◌, arith}
use text.Mathlib.TextEquality.{eq_iff}
use llm_evaluation_pipeline.Dict.{Dict, lookup, insert, contains, IsDict}
use llm_evaluation_pipeline.Number.Fixed.{Fixed, fixed_float, Fixed-IsFloat, difference}
use llm_evaluation_pipeline.Metric.{metric_direction}
use llm_evaluation_pipeline.Gate.{
  Threshold, Results, pass, fail, evaluate_gate, check_metric, extract_metric_value,
  default_thresholds, run_checks, all_passed, make_check,
}
use llm_evaluation_pipeline.Gate.Outcome.{evaluate_gate_iff, AllWithin}
use llm_evaluation_pipeline.Gate.Monotone.{AllTighter, evaluate_gate_mono}

abbrev thresholds : Dict (Threshold Fixed)
thresholds = default_thresholds

abbrev results : Results Fixed
results = record {
  numbers = ("relevance", some (fixed_float.lit 9 1)) ∷ ("latency_ms", none) ∷ [];
  hallucination = some (some (fixed_float.lit 95 2));
  metric_results = none;
}

abbrev poor : Results Fixed
poor = record results { hallucination = some (some (fixed_float.lit 5 1)) }

good_passes : (evaluate_gate thresholds results).status ≡ pass
unfolding evaluate_gate difference metric_direction lookup insert check_metric run_checks all_passed
    make_check extract_metric_value
good_passes = refl

poor_fails : (evaluate_gate thresholds poor).status ≡ fail
unfolding evaluate_gate difference metric_direction lookup insert check_metric run_checks all_passed
    make_check extract_metric_value
poor_fails = refl

thresholds-IsDict : IsDict thresholds
unfolding contains
thresholds-IsDict = (refl, (refl, (refl, (refl, tt))))

-- the same metrics, with a lower bar for relevance
abbrev loose : Dict (Threshold Fixed)
loose = ("relevance", record { min = some (fixed_float.lit 7 1); max = none }) ∷ []

loose-AllTighter : AllTighter loose thresholds
unfolding lookup metric_direction
loose-AllTighter name t d e k = (
  record { min = some (fixed_float.lit 80 2); max = none },
  ground (arith, eq_iff "relevance" name),
  ground (arith, eq_iff "relevance" name),
)

evaluate_gate_iff_example :
    ((evaluate_gate thresholds poor).status ≡ pass) ↔ AllWithin thresholds poor
evaluate_gate_iff_example = evaluate_gate_iff thresholds poor thresholds-IsDict

evaluate_gate_mono_example : (evaluate_gate loose results).status ≡ pass
unfolding contains
evaluate_gate_mono_example =
    evaluate_gate_mono Fixed-IsFloat loose thresholds results (refl, tt) thresholds-IsDict
      loose-AllTighter good_passes
