-- ===== src/Routes/JobGate.antt =====
-- `get_job_quality_gate` of app/api/routes/jobs.py.
pub mod Measured
mod Tests
use llm_evaluation_pipeline.Prelude.{
  ℕ, String, Option, none, some, List, [], ◌∷◌, if◌then◌else◌, Bool, true, false,
}
use llm_evaluation_pipeline.Dict.{Dict}
use llm_evaluation_pipeline.Number.{Float, zero_float, one_float}
use llm_evaluation_pipeline.Models.{
  JobStatus, queued, running, completed, failed, cancelled, Project, EvaluationJob, BatchResult,
  item_completed, item_failed, QualityGate,
}
use llm_evaluation_pipeline.Gate.{Threshold, Results, GateResult, fail, evaluate_gate}
use llm_evaluation_pipeline.App.{Exec, Backend, http_exception, pure, raise, ◌>>=◌}
use llm_evaluation_pipeline.Jobs.{get_job}
use llm_evaluation_pipeline.Store.{get_quality_gate}
use llm_evaluation_pipeline.Routes.{or_404}

-- the row that the query of the handler returns: an average over no value is NULL
pub record Averages (F : Type 0) : Type 0 where
  pub avg_relevance : Option F
  pub avg_latency : Option F
  pub avg_cost : Option F

-- `run_ids`
unfoldable pub completed_runs : List BatchResult → List ℕ
completed_runs [] = []
completed_runs (item_completed run_id ∷ rest) = run_id ∷ completed_runs rest
completed_runs (item_failed index error ∷ rest) = completed_runs rest

unfoldable pub is_completed : JobStatus → Bool
is_completed completed = true
is_completed queued = false
is_completed running = false
is_completed failed = false
is_completed cancelled = false

module _ {F : Type 0} ⦃f : Float F⦄ where
  -- `float(x) if x else 0`
  unfoldable pub float_or_0 : Option F → F
  float_or_0 none = zero_float
  float_or_0 (some x) = x

  -- `avg_results`
  unfoldable pub avg_results : Averages F → Results F
  avg_results a = record {
    numbers =
        ("relevance", some (float_or_0 a.avg_relevance))
        ∷ ("latency_ms", some (float_or_0 a.avg_latency))
        ∷ ("estimated_cost", some (float_or_0 a.avg_cost))
        ∷ [];
    hallucination = some (some one_float);
    metric_results = none;
  }

  unfoldable pub no_result : GateResult F
  no_result = record { status = fail; checks = [] }

-- `average` executes the query of the handler on the runs with the given identifiers.
module _ {F D R V : Type 0} ⦃f : Float F⦄ (b : Backend F D R V)
    (average : List ℕ → Exec F D R (Averages F)) where
  unfoldable pub gate_runs : Dict (Threshold F) → List ℕ → Exec F D R (GateResult F)
  gate_runs thresholds [] = pure no_result
  gate_runs thresholds (id ∷ ids) = do
    row ← average (id ∷ ids)
    pure (evaluate_gate thresholds (avg_results row))

  unfoldable pub gate_batch :
      Dict (Threshold F) → Option (List BatchResult) → Exec F D R (GateResult F)
  gate_batch thresholds none = pure no_result
  gate_batch thresholds (some results) = gate_runs thresholds (completed_runs results)

  -- the gate is looked up in all projects
  unfoldable pub gate_job : EvaluationJob F → Option ℕ → Exec F D R (GateResult F)
  gate_job job none = raise (http_exception 400)
  gate_job job (some id) = do
    found ← get_quality_gate id none
    gate ← or_404 found
    gate_batch gate.thresholds job.batch_results

  unfoldable pub get_job_quality_gate : ℕ → Project → Exec F D R (GateResult F)
  get_job_quality_gate job_id project = do
    found ← get_job b job_id (some project.id)
    job ← or_404 found
    if is_completed job.status then gate_job job job.quality_gate_id else raise (http_exception 400)
