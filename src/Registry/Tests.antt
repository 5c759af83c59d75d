-- ===== src/Registry/Tests.antt =====
-- Two evaluators, of which one raises, and a name that is not known.
use llm_evaluation_pipeline.Prelude.{
  String, true, Option, none, some, List, [], ◌∷◌, if◌then◌else◌, ◌==◌, text_comparable,
}
use llm_evaluation_pipeline.Number.Fixed.{Fixed, fixed_float}
use llm_evaluation_pipeline.App.{ok, raised, value_error}
use llm_evaluation_pipeline.Registry.{Evaluator, JudgeSettings, run_evaluators, configure, mentions}
use llm_evaluation_pipeline.Registry.Isolation.{AreResultsOf, IsJudged, run_evaluators-AreResultsOf}

abbrev steady : Evaluator Fixed Unit Unit
steady = record {
  version = "1.0.0";
  evaluate = λ s sample. ok (record {
    metric = "cost";
    score = fixed_float.lit 5 1;
    evaluator_version = "1.0.0";
    passed = some true;
    details = tt;
    error = none;
  });
}

abbrev broken : Evaluator Fixed Unit Unit
broken = record { version = "1.0.0"; evaluate = λ s sample. raised value_error }

abbrev create_evaluator : String → Option (Evaluator Fixed Unit Unit)
create_evaluator name =
    if name == "cost" then some steady else if name == "llm_judge" then some broken else none

abbrev settings : JudgeSettings Fixed
settings = record { provider = "openai"; model = "m"; temperature = fixed_float.lit 0 0 }

abbrev names : List String
names = "cost" ∷ "unknown" ∷ []

run_evaluators-AreResultsOf_example :
    AreResultsOf create_evaluator tt
      (λ e. "error")
      (λ n. "not found")
      settings
      tt
      (IsJudged create_evaluator tt
        (λ e. "error")
        (λ n. "not found")
        settings
        tt
        true
        (some broken))
      names
      (run_evaluators create_evaluator tt
        (λ e. "error")
        (λ n. "not found")
        settings
        names
        tt
        true
        none).0
unfolding configure mentions
run_evaluators-AreResultsOf_example =
    run_evaluators-AreResultsOf create_evaluator tt (λ e. "error") (λ n. "not found") settings names
      tt true none
