-- ===== src/Ci/Tests.antt =====
-- Witnesses of the theorems on scripts/evaluate_ci.py.
use llm_evaluation_pipeline.Prelude.{
  ◌≡◌, refl, String, true, false, none, some, List, [], ◌∷◌, if◌then◌else◌,
}
use llm_evaluation_pipeline.Number.Fixed.{Fixed, fixed_float}
use llm_evaluation_pipeline.Metric.{MetricResult}
use llm_evaluation_pipeline.App.{Result, ok}
use llm_evaluation_pipeline.Evaluators.{Sample}
use llm_evaluation_pipeline.Ci.{plain_texts, Dataset, main}
use llm_evaluation_pipeline.Ci.Verdict.{all_clean, main-all_clean, main-AllFail}

abbrev dataset : Dataset Fixed
dataset = record {
  items =
      record {
        question = "Where is Paris?";
        answer = "In France";
        context = plain_texts ("Paris is in France." ∷ []);
        reference_answer = "";
        input_tokens = none;
        output_tokens = none;
      }
      ∷ [];
  profile = some "rag";
  quality_thresholds =
      ("faithfulness", record { value = some (fixed_float.lit 7 1); direction = none })
      ∷ ("cost", record { value = some (fixed_float.lit 5 1); direction = some "lower_is_better" })
      ∷ [];
}

abbrev scored : String → Sample Fixed → Result (List (MetricResult Fixed (Unit {0})))
scored profile sample = ok (
    record {
      metric = "faithfulness";
      score = fixed_float.lit 6 1;
      evaluator_version = "1.0.0";
      passed = some true;
      details = tt;
      error = none;
    }
    ∷ [])

-- the classifier is out of order
abbrev failures : List (MetricResult Fixed (Unit {0}))
failures =
    record {
      metric = "faithfulness";
      score = fixed_float.lit 0 0;
      evaluator_version = "1.0.0";
      passed = some false;
      details = tt;
      error = some "no model";
    }
    ∷ []

abbrev failing : String → Sample Fixed → Result (List (MetricResult Fixed (Unit {0})))
failing profile sample = ok failures

main-all_clean_example :
    (main scored (some dataset)
      ≡ (if all_clean scored "rag" dataset.quality_thresholds dataset.items then 0 else 1))
    × (main scored none ≡ 1)
main-all_clean_example = main-all_clean scored dataset

main-AllFail_example : main failing (some dataset) ≡ 0
main-AllFail_example = main-AllFail failing dataset ((failures, (refl, (refl, tt))), tt)
