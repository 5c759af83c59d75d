-- ===== src/Baseline/Tests.antt =====
-- Runs of `detect_regressions`, and the theorems at concrete runs.
use llm_evaluation_pipeline.Prelude.{◌≡◌, ◌↔◌, refl, String, true, some, none, List, [], ◌∷◌, All}
use llm_evaluation_pipeline.Dict.{lookup}
use llm_evaluation_pipeline.Number.Fixed.{Fixed, fixed_float, Fixed-IsFloat, difference, rounded}
use llm_evaluation_pipeline.Metric.{metric_direction}
use llm_evaluation_pipeline.Models.{EvaluationRun, MetricResultRecord, completed}
use llm_evaluation_pipeline.Baseline.{
  RegressionEntry, no_regression, regression_detected, direction_of, tolerance_of, is_regression,
  regresses, legacy_entry, classify, compare_legacy, legacy_loop, legacy_comparisons,
  detect_regressions, default_tolerances, advanced_findings, fraction_unsupported,
}
use llm_evaluation_pipeline.Baseline.Verdict.{
  detect_regressions_iff, IsSetOrder, IsSteadyPair, IsSteadyTable,
}
use llm_evaluation_pipeline.Baseline.Same.{detect_regressions_same, IsFiniteRun}
use llm_evaluation_pipeline.Baseline.Drops.{relevance_drop_is_improvement}

abbrev good : EvaluationRun Fixed Unit
good = record {
  id = 7;
  created_at = 0;
  project_id = some 1;
  status = completed;
  is_baseline = true;
  profile = none;
  composite_score = none;
  conversation = record {
    model_response = "yes";
    question = "";
    input_tokens = 0;
    output_tokens = 0;
    latency_ms = none;
    reference_answer = "";
    citations = [];
  };
  context = [];
  relevance = some (fixed_float.lit 9 1);
  hallucination =
      some
        (record { fraction_supported = some (fixed_float.lit 1 0); flags = none; details = none });
  latency_ms = some (fixed_float.lit 100 0);
  estimated_cost = none;
}

abbrev worse : EvaluationRun Fixed Unit
worse = record good { id = 8; relevance = some (fixed_float.lit 8 1) }

abbrev slightly_worse : EvaluationRun Fixed Unit
slightly_worse = record good { id = 9; relevance = some (fixed_float.lit 87 2) }

abbrev judged : List (MetricResultRecord Fixed Unit)
judged =
    record {
      id = 1;
      created_at = 0;
      run_id = 7;
      metric = "llm_judge";
      score = fixed_float.lit 8 1;
      passed = some true;
      evaluator_version = "1.0.0";
      details = none;
      error = none;
    }
    ∷ []

abbrev in_order : List String → List String
in_order names = names

in_order-IsSetOrder : IsSetOrder in_order
in_order-IsSetOrder k names = refl

a_drop_is_detected :
    (detect_regressions in_order good worse none none none).overall ≡ regression_detected
unfolding detect_regressions advanced_findings legacy_loop legacy_comparisons compare_legacy
    classify regresses is_regression direction_of tolerance_of default_tolerances
    fraction_unsupported lookup metric_direction difference rounded
a_drop_is_detected = refl

good-IsFiniteRun : IsFiniteRun Fixed-IsFloat good
unfolding fraction_unsupported difference
good-IsFiniteRun = record {
  relevance = refl;
  unsupported = refl;
  latency_ms = refl;
  estimated_cost = tt;
}

detect_regressions_iff_example :
    ((detect_regressions in_order good worse
        (some default_tolerances)
        (some judged)
        (some judged)).overall
      ≡ no_regression)
    ↔ (All (IsSteadyPair default_tolerances) (legacy_comparisons good worse)
        × IsSteadyTable default_tolerances (some judged) (some judged))
detect_regressions_iff_example =
    detect_regressions_iff in_order in_order-IsSetOrder good worse default_tolerances (some judged)
      (some judged)

detect_regressions_same_example :
    detect_regressions in_order good good none (some judged) (some judged)
    ≡ record { overall = no_regression; baseline_id = 7; regressions = []; improvements = [] }
unfolding difference
detect_regressions_same_example =
    detect_regressions_same Fixed-IsFloat in_order good (some judged) good-IsFiniteRun (refl, tt)

relevance_drop_is_improvement_example :
    (more : List (RegressionEntry Fixed)) × ((detect_regressions in_order good slightly_worse
        (some default_tolerances)
        none
        none).improvements
      ≡ legacy_entry default_tolerances "relevance" (fixed_float.lit 9 1) (fixed_float.lit 87 2)
        ∷ more)
unfolding difference tolerance_of default_tolerances lookup
relevance_drop_is_improvement_example =
    relevance_drop_is_improvement Fixed-IsFloat in_order good slightly_worse default_tolerances
      (fixed_float.lit 9 1) (fixed_float.lit 87 2) refl refl refl refl
