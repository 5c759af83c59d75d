-- ===== src/Service.antt =====
-- The evaluation of a request: `run_evaluation` and `_build_sample` of
-- app/services/evaluation_service.py, and app/api/routes/evaluations.py.
pub mod Atomic
pub mod Stored
pub mod Created
pub mod Answered
mod Tests
use llm_evaluation_pipeline.Prelude.{
  ℕ, String, Bool, true, false, Option, none, some, List, [], ◌∷◌, ◌++◌, ◌&&◌, not, if◌then◌else◌,
  ◌==◌, text_comparable, is_empty,
}
use llm_evaluation_pipeline.Number.{Float}
use llm_evaluation_pipeline.Metric.{MetricResult}
use llm_evaluation_pipeline.Models.{
  completed, ContextChunk, ConversationInput, EvaluationRun, MetricResultRecord, Database,
}
use llm_evaluation_pipeline.App.{
  Exception, http_exception, busy_error, redis_error, database_error, json_error, attribute_error,
  value_error, evaluation_error, Exec, Backend, World, Result, ok, raised, pure, raise, gets, ◌>>=◌,
  ◌>>◌, proceed, change_view, except, query, commit,
}
use llm_evaluation_pipeline.Jobs.{now}
use llm_evaluation_pipeline.Store.{get_metric_results}
use llm_evaluation_pipeline.Worker.{PipelineResult}
use llm_evaluation_pipeline.Composite.{compute_composite}
use llm_evaluation_pipeline.Registry.{JudgeSettings, JudgeConfig}
use llm_evaluation_pipeline.Evaluators.{Sample, Details}
use llm_evaluation_pipeline.Profiles.{Tools, EvalProfile, get_profile, evaluate_with_profile}
use llm_evaluation_pipeline.Pipeline.{evaluate}
use llm_evaluation_pipeline.Routes.Runs.{RunResponse, run_to_response}

-- what the `try` of `run_evaluation` computes
pub record Evaluated (F : Type 0) : Type 0 where
  pub legacy_result : PipelineResult F (Details F)
  pub metric_results : List (MetricResult F (Details F))
  pub composite_score : Option F

module _ {F : Type 0} where
  -- `_build_sample` of a context with chunks
  unfoldable pub build_sample : ConversationInput F → List ContextChunk → Sample F
  build_sample conversation chunks = record {
    question = conversation.question;
    answer = conversation.model_response;
    context = chunks;
    conversation = conversation;
    citations = conversation.citations;
    reference_answer = conversation.reference_answer;
    metadata_latency_ms = none;
  }

module _ {F E : Type 0} ⦃f : Float F⦄ (t : Tools F E) (readings : List (F × F)) where
  -- the score of a profile that has weights
  unfoldable pub composite_of :
      List (MetricResult F (Details F)) → Option (EvalProfile F) → Option F
  composite_of results none = none
  composite_of results (some p) =
      if is_empty p.composite_weights
      then none
      else some (compute_composite results p.composite_weights).composite_score

  -- after the legacy pipeline
  unfoldable pub evaluate_advanced :
      JudgeSettings F
      → ConversationInput F
      → List ContextChunk
      → String
      → Option (JudgeConfig F)
      → PipelineResult F (Details F)
      → Evaluated F
  evaluate_advanced s conversation chunks profile config legacy =
      if is_advanced profile
      then (let results =
            (evaluate_with_profile t s profile (build_sample conversation chunks) config).0 in
          record {
            legacy_result = legacy;
            metric_results = results;
            composite_score = composite_of results (get_profile profile);
          })
      else record { legacy_result = legacy; metric_results = []; composite_score = none }
    where
      is_advanced : String → Bool
      is_advanced profile = not (profile == "") && not (profile == "basic")

  unfoldable pub evaluate_slot :
      JudgeSettings F
      → ConversationInput F
      → List ContextChunk
      → String
      → Option (JudgeConfig F)
      → Result (Evaluated F)
  evaluate_slot s conversation chunks profile config =
      elim (evaluate t.upper t.get_model t.nli readings conversation chunks) [
        | ok legacy ↦ ok (evaluate_advanced s conversation chunks profile config legacy)
        | raised e ↦ raised e
      ]

module _ {F D R A : Type 0} where
  -- what a computation without the stores returns or raises
  abbrev pub returned : Result A → Exec F D R A
  returned (ok a) = pure a
  returned (raised e) = raise e

module _ {F D R V : Type 0} (b : Backend F D R V) where
  -- `db.flush()`: the changes so far are sent, and may be refused
  unfoldable pub flush : Exec F D R (Unit {0})
  flush w =
      if b.accepts w.stored w.view && not w.broken
      then (ok tt, w)
      else (raised database_error, record w { broken = true })

module _ {F D R : Type 0} where
  -- a step that raises unless the world lets it through
  unfoldable pub attempt : Exception → (World F D R → Bool) → Exec F D R (Unit {0})
  attempt e passes w = if passes w then (ok tt, w) else (raised e, w)

-- whether the database answers what is read after the commit, `db.refresh(run)` and the query of
-- `get_metric_results`, and whether the response can be built of it
pub record Reads (F R : Type 0) : Type 0 where
  pub refreshes : World F (Details F) R → Bool
  pub lists : World F (Details F) R → Bool
  pub builds : World F (Details F) R → Bool

module _ {F R V : Type 0} (b : Backend F (Details F) R V) where
  unfoldable pub add_record : ℕ → MetricResult F (Details F) → Exec F (Details F) R (Unit {0})
  add_record run_id mr = do
    id ← gets (λ w. b.uuid4 w.view)
    created ← now
    change_view λ db. record db {
      metric_results =
          db.metric_results
          ++ record {
            id = id;
            created_at = created;
            run_id = run_id;
            metric = mr.metric;
            score = mr.score;
            passed = mr.passed;
            evaluator_version = mr.evaluator_version;
            details = some mr.details;
            error = mr.error;
          }
            ∷ [];
    }

  unfoldable pub add_records :
      ℕ → List (MetricResult F (Details F)) → Exec F (Details F) R (Unit {0})
  add_records run_id [] = pure tt
  add_records run_id (mr ∷ mrs) = add_record run_id mr >> add_records run_id mrs

  abbrev pub run_of :
      ℕ
      → ℕ
      → Option ℕ
      → String
      → ConversationInput F
      → List ContextChunk
      → Evaluated F
      → EvaluationRun F (Details F)
  run_of id created project profile conversation chunks ev = record {
    id = id;
    created_at = created;
    project_id = project;
    status = completed;
    is_baseline = false;
    profile = some profile;
    composite_score = ev.composite_score;
    conversation = conversation;
    context = chunks;
    relevance = ev.legacy_result.relevance;
    hallucination = ev.legacy_result.hallucination;
    latency_ms = ev.legacy_result.latency_ms;
    estimated_cost = ev.legacy_result.estimated_cost;
  }

module _ {F R V : Type 0} (b : Backend F (Details F) R V) (reads : Reads F R) where
  -- what follows the `try`
  unfoldable pub store_run :
      Option ℕ
      → String
      → ConversationInput F
      → List ContextChunk
      → Evaluated F
      → Exec F (Details F) R (EvaluationRun F (Details F))
  store_run project profile conversation chunks ev = do
    id ← gets (λ w. b.uuid4 w.view)
    created ← now
    let run : EvaluationRun F (Details F) =
        run_of b id created project profile conversation chunks ev
    change_view (λ db. record db { evaluation_runs = db.evaluation_runs ++ run ∷ [] })
    flush b
    add_records b run.id ev.metric_results
    commit b
    attempt database_error reads.refreshes
    pure run

  -- `run_evaluation`, `acquired` being what `semaphore.acquire` returned and `evaluated` what the slot
  -- was used for
  unfoldable pub run_evaluation :
      Bool
      → Result (Evaluated F)
      → Option ℕ
      → String
      → ConversationInput F
      → List ContextChunk
      → Exec F (Details F) R (EvaluationRun F (Details F))
  run_evaluation acquired evaluated project profile conversation chunks =
      if not acquired
      then raise busy_error
      else returned evaluated >>= store_run project profile conversation chunks

  -- the status codes that the route answers exceptions with
  unfoldable pub refuse : Exception → Exec F (Details F) R (RunResponse F (Details F))
  refuse busy_error = raise (http_exception 503)
  refuse e = raise (http_exception 500)

  unfoldable pub respond :
      EvaluationRun F (Details F) → Exec F (Details F) R (RunResponse F (Details F))
  respond run = do
    attempt database_error reads.lists
    records ← get_metric_results run.id none
    attempt value_error reads.builds
    pure (run_to_response records run)

  -- `create_evaluation`; an `EvaluationResponse` has the fields of a `RunResponse`
  unfoldable pub create_evaluation :
      Bool
      → Result (Evaluated F)
      → ℕ
      → String
      → ConversationInput F
      → List ContextChunk
      → Exec F (Details F) R (RunResponse F (Details F))
  create_evaluation acquired evaluated project profile conversation chunks =
      except
        (run_evaluation acquired evaluated (some project) profile conversation chunks >>= respond)
        refuse
