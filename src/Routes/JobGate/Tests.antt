-- ===== src/Routes/JobGate/Tests.antt =====
-- The quality gate of a completed job, on an in-memory server.
use llm_evaluation_pipeline.Prelude.{ℕ, ◌≡◌, refl, true, false, some, none, List, [], ◌∷◌}
use llm_evaluation_pipeline.Dict.{lookup, insert}
use llm_evaluation_pipeline.Number.{one_float}
use llm_evaluation_pipeline.Number.Fixed.{Fixed, fixed_float, difference}
use llm_evaluation_pipeline.Metric.{metric_direction, lower_is_better}
use llm_evaluation_pipeline.Models.{
  completed, EvaluationJob, QualityGate, Database, Project, item_completed, item_failed,
}
use llm_evaluation_pipeline.Redis.Memory.{
  Server, Text, memory, memory_json, empty_server, get_text, peek,
}
use llm_evaluation_pipeline.Gate.{
  Check, GateResult, pass, evaluate_gate, run_checks, check_metric, extract_metric_value,
  extract_indirect, make_check, all_passed,
}
use llm_evaluation_pipeline.App.{Backend, World, Exec, ok, pure, query, ask, except, ◌>>=◌}
use llm_evaluation_pipeline.App.Rows.{update}
use llm_evaluation_pipeline.Jobs.{
  get_job, overlay, safe_redis_call, get_job_state, get_job_progress, load_state, load_progress,
  in_project,
}
use llm_evaluation_pipeline.Store.{get_quality_gate, first_scoped}
use llm_evaluation_pipeline.Routes.{or_404}
use llm_evaluation_pipeline.Routes.JobGate.{
  Averages, completed_runs, is_completed, avg_results, float_or_0, gate_runs, gate_batch, gate_job,
  get_job_quality_gate,
}
use llm_evaluation_pipeline.Routes.JobGate.Measured.{IsMeasured, get_job_quality_gate-IsMeasured}

abbrev backend : Backend Fixed Unit Server Text
backend = record {
  redis = memory;
  json = memory_json;
  accepts = λ stored view. true;
  uuid4 = λ db. 100;
  str = λ e. "error";
}

abbrev job : EvaluationJob Fixed
job = record {
  id = 5;
  created_at = 0;
  started_at = none;
  completed_at = none;
  project_id = some 1;
  status = completed;
  total_items = 2;
  completed_items = 1;
  failed_items = 1;
  error_message = none;
  items = [];
  evaluation_run_id = none;
  quality_gate_id = some 9;
  batch_results = some (item_completed 7 ∷ item_failed 1 "error" ∷ []);
}

-- a limit on hallucination, and one on a metric of an evaluator
abbrev gate : QualityGate Fixed
gate = record {
  id = 9;
  created_at = 0;
  project_id = some 2;
  name = "g";
  thresholds =
      (
        "hallucination_fraction_unsupported",
        record { min = none; max = some (fixed_float.lit 1 1) },
      )
      ∷ ("faithfulness", record { min = some (fixed_float.lit 9 1); max = none })
      ∷ [];
  enabled = true;
}

abbrev database : Database Fixed Unit
database = record {
  projects = [];
  api_keys = [];
  evaluation_runs = [];
  metric_results = [];
  evaluation_jobs = job ∷ [];
  quality_gates = gate ∷ [];
  evaluation_baselines = [];
}

abbrev world : World Fixed Unit Server
world = record {
  view = database;
  stored = database;
  broken = false;
  redis = empty_server;
  clock = 0;
}

abbrev project : Project
project = record { id = 1; created_at = 0; name = "p"; description = "" }

abbrev average : List ℕ → Exec Fixed Unit Server (Averages Fixed)
average ids = pure (record { avg_relevance = none; avg_latency = none; avg_cost = none })

abbrev check : Check Fixed
check = record {
  value = fixed_float.sub one_float one_float;
  threshold = fixed_float.lit 1 1;
  passed = true;
  direction = lower_is_better;
}

abbrev answer : GateResult Fixed
answer = record { status = pass; checks = ("hallucination_fraction_unsupported", check) ∷ [] }

answered : get_job_quality_gate backend average 5 project world ≡ (ok answer, world)
unfolding get_job_quality_gate gate_job gate_batch gate_runs completed_runs is_completed avg_results
    float_or_0 get_job overlay safe_redis_call get_job_state get_job_progress load_state
    load_progress in_project get_quality_gate first_scoped or_404 evaluate_gate run_checks
    check_metric extract_metric_value extract_indirect make_check all_passed query ask except ◌>>=◌
    get_text peek lookup update metric_direction insert difference
answered = refl

listed : lookup "hallucination_fraction_unsupported" answer.checks ≡ some check
unfolding lookup
listed = refl

get_job_quality_gate-IsMeasured_example :
    IsMeasured "hallucination_fraction_unsupported" check.value
get_job_quality_gate-IsMeasured_example =
    get_job_quality_gate-IsMeasured backend average 5 project answer world world
      "hallucination_fraction_unsupported" check answered listed
