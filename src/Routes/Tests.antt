-- ===== src/Routes/Tests.antt =====
-- A comparison of two runs of project 1.
use llm_evaluation_pipeline.Prelude.{◌≡◌, refl, String, true, false, some, none, List, [], ◌∷◌}
use llm_evaluation_pipeline.Number.Fixed.{Fixed, fixed_float}
use llm_evaluation_pipeline.Models.{Project, EvaluationRun, EvaluationBaseline, Database, completed}
use llm_evaluation_pipeline.Baseline.{Comparison, detect_regressions}
use llm_evaluation_pipeline.App.{World, ok, query, ◌>>=◌}
use llm_evaluation_pipeline.Jobs.{in_project}
use llm_evaluation_pipeline.Store.{first_scoped, get_run, get_baseline}
use llm_evaluation_pipeline.Routes.{or_404}
use llm_evaluation_pipeline.Routes.Runs.{compare_run_to_baseline}
use llm_evaluation_pipeline.Routes.Owned.{IsOwnComparison, compare_run_to_baseline-IsOwnComparison}

abbrev reference : EvaluationRun Fixed Unit
reference = record {
  id = 7;
  created_at = 0;
  project_id = some 1;
  status = completed;
  is_baseline = true;
  profile = none;
  composite_score = none;
  conversation = record {
    model_response = "yes";
    question = "";
    input_tokens = 0;
    output_tokens = 0;
    latency_ms = none;
    reference_answer = "";
    citations = [];
  };
  context = [];
  relevance = some (fixed_float.lit 9 1);
  hallucination = none;
  latency_ms = none;
  estimated_cost = none;
}

abbrev current : EvaluationRun Fixed Unit
current = record reference { id = 8; relevance = some (fixed_float.lit 8 1) }

abbrev baseline : EvaluationBaseline
baseline = record {
  id = 3;
  created_at = 0;
  project_id = some 1;
  name = "b";
  description = "";
  run_id = 7;
}

abbrev database : Database Fixed Unit
database = record {
  projects = [];
  api_keys = [];
  evaluation_runs = reference ∷ current ∷ [];
  metric_results = [];
  evaluation_jobs = [];
  quality_gates = [];
  evaluation_baselines = baseline ∷ [];
}

abbrev world : World Fixed Unit Unit
world = record { view = database; stored = database; broken = false; redis = tt; clock = 0 }

abbrev in_order : List String → List String
in_order names = names

abbrev project : Project
project = record { id = 1; created_at = 0; name = "p"; description = "" }

abbrev comparison : Comparison Fixed
comparison = detect_regressions in_order reference current none none none

compared : compare_run_to_baseline in_order 8 3 project world ≡ (ok comparison, world)
unfolding compare_run_to_baseline get_baseline get_run first_scoped in_project or_404 query ◌>>=◌
compared = refl

compare_run_to_baseline-IsOwnComparison_example : IsOwnComparison in_order 8 3 1 database comparison
compare_run_to_baseline-IsOwnComparison_example =
    compare_run_to_baseline-IsOwnComparison in_order 8 3 project comparison world world compared
