-- ===== src/Routes/Runs.antt =====
-- app/api/routes/runs.py and app/api/routes/baselines.py.
use llm_evaluation_pipeline.Prelude.{
  ℕ, String, Option, none, some, List, map, select, ◌==◌, number_comparable,
}
use llm_evaluation_pipeline.Dict.{Dict}
use llm_evaluation_pipeline.Number.{Float}
use llm_evaluation_pipeline.Metric.{Hallucination}
use llm_evaluation_pipeline.Gate.{Threshold}
use llm_evaluation_pipeline.Models.{
  JobStatus, Project, EvaluationRun, MetricResultRecord, EvaluationBaseline, QualityGate, Database,
}
use llm_evaluation_pipeline.Baseline.{Comparison, detect_regressions}
use llm_evaluation_pipeline.App.{
  Exception, http_exception, redis_error, response_error, database_error, json_error,
  attribute_error, busy_error, value_error, evaluation_error, Exec, Backend, pure, raise, ◌>>=◌,
  except, query,
}
use llm_evaluation_pipeline.Store.{
  get_run, list_runs, count_runs, get_metric_results, get_baseline, list_baselines, create_baseline,
  get_quality_gate, list_quality_gates, create_quality_gate,
}
use llm_evaluation_pipeline.Routes.{or_404}

pub record RunResponse (F D : Type 0) : Type 0 where
  pub run_id : ℕ
  pub status : JobStatus
  pub relevance : Option F
  pub hallucination : Option (Hallucination F D)
  pub latency_ms : Option F
  pub estimated_cost : Option F
  pub profile : Option String
  pub composite_score : Option F
  pub metric_results : List (MetricResultRecord F D)
  pub created_at : ℕ

pub record PaginatedRunsResponse (F D : Type 0) : Type 0 where
  pub runs : List (RunResponse F D)
  pub total : ℕ
  pub offset : ℕ
  pub limit : ℕ

module _ {F D : Type 0} where
  -- `_run_to_response`, with the rows that `run.metric_results` holds
  unfoldable pub run_to_response :
      List (MetricResultRecord F D) → EvaluationRun F D → RunResponse F D
  run_to_response records run = record {
    run_id = run.id;
    status = run.status;
    relevance = run.relevance;
    hallucination = run.hallucination;
    latency_ms = run.latency_ms;
    estimated_cost = run.estimated_cost;
    profile = run.profile;
    composite_score = run.composite_score;
    metric_results = records;
    created_at = run.created_at;
  }

  -- the rows that the relationship of a run loads
  unfoldable pub records_of : Database F D → EvaluationRun F D → List (MetricResultRecord F D)
  records_of db run = select (λ m. m.run_id == run.id) db.metric_results

module _ {F D R : Type 0} where
  unfoldable pub get_evaluation_run : ℕ → Project → Exec F D R (RunResponse F D)
  get_evaluation_run run_id project = do
    found ← get_run run_id (some project.id)
    run ← or_404 found
    records ← get_metric_results run_id (some project.id)
    pure (run_to_response records run)

  -- `order_by_desc` is what the database does for `ORDER BY … DESC`
  unfoldable pub get_evaluation_runs :
      ((EvaluationRun F D → ℕ) → List (EvaluationRun F D) → List (EvaluationRun F D))
      → ℕ
      → ℕ
      → Project
      → Exec F D R (PaginatedRunsResponse F D)
  get_evaluation_runs order_by_desc offset limit project = do
    runs ← list_runs order_by_desc offset limit (some project.id)
    total ← count_runs (some project.id)
    responses ← query (λ db. map (λ run. run_to_response (records_of db run) run) runs)
    pure (record { runs = responses; total = total; offset = offset; limit = limit })

  unfoldable pub list_all_baselines : Project → Exec F D R (List EvaluationBaseline)
  list_all_baselines project = list_baselines (some project.id)

  unfoldable pub get_single_baseline : ℕ → Project → Exec F D R EvaluationBaseline
  get_single_baseline baseline_id project = do
    found ← get_baseline baseline_id (some project.id)
    or_404 found

  unfoldable pub list_all_quality_gates : Project → Exec F D R (List (QualityGate F))
  list_all_quality_gates project = list_quality_gates (some project.id)

  unfoldable pub get_single_quality_gate : ℕ → Project → Exec F D R (QualityGate F)
  get_single_quality_gate gate_id project = do
    found ← get_quality_gate gate_id (some project.id)
    or_404 found

module _ {F D R V : Type 0} (b : Backend F D R V) where
  -- `except ValueError`
  unfoldable pub on_value_error : {A : Type 0} → Exception → Exec F D R A
  on_value_error value_error = raise (http_exception 404)
  on_value_error (http_exception c) = raise (http_exception c)
  on_value_error redis_error = raise redis_error
  on_value_error response_error = raise response_error
  on_value_error database_error = raise database_error
  on_value_error json_error = raise json_error
  on_value_error attribute_error = raise attribute_error
  on_value_error busy_error = raise busy_error
  on_value_error (evaluation_error t) = raise (evaluation_error t)

  unfoldable pub create_new_baseline : String → String → ℕ → Project → Exec F D R EvaluationBaseline
  create_new_baseline name description run_id project =
      except (create_baseline b run_id name description (some project.id)) on_value_error

module _ {F D R V : Type 0} ⦃f : Float F⦄ (b : Backend F D R V) where
  -- any failure is answered by 409
  unfoldable pub create_new_quality_gate :
      String → Option (Dict (Threshold F)) → Project → Exec F D R (QualityGate F)
  create_new_quality_gate name thresholds project =
      except (create_quality_gate b name thresholds (some project.id))
        λ e. raise (http_exception 409)

module _ {F D R : Type 0} ⦃f : Float F⦄ where
  -- The comparison is of the values in the rows of the two runs alone: no metric results are passed.
  unfoldable pub compare_run_to_baseline :
      (List String → List String) → ℕ → ℕ → Project → Exec F D R (Comparison F)
  compare_run_to_baseline set_order run_id baseline_id project = do
    found ← get_baseline baseline_id (some project.id)
    baseline ← or_404 found
    baseline_found ← get_run baseline.run_id (some project.id)
    current_found ← get_run run_id (some project.id)
    baseline_run ← or_404 baseline_found
    current_run ← or_404 current_found
    pure (detect_regressions set_order baseline_run current_run none none none)
