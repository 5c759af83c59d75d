-- ===== src/Worker/Tests.antt =====
-- Runs of the worker on an in-memory server.
use llm_evaluation_pipeline.Prelude.{
  ℕ, ◌+◌, ◌≡◌, refl, String, true, false, none, some, none, List, [], ◌∷◌, length, first, ◌==◌,
  text_comparable, number_comparable, if◌then◌else◌,
}
use llm_evaluation_pipeline.Models.{
  queued, cancelled, EvaluationJob, Database, BatchEvaluationItem, ConversationInput, ContextChunk,
}
use llm_evaluation_pipeline.Redis.{job_state}
use llm_evaluation_pipeline.Redis.Memory.{
  Memory-IsRedis, Memory-IsJson, Server, Text, memory, memory_json, empty_server, set_text,
  get_text, peek, put, state_text,
}
use llm_evaluation_pipeline.App.{
  Backend, World, Result, ok, raised, evaluation_error, rollback, in_session, except, commit, query,
  ask, send, ◌>>=◌,
}
use llm_evaluation_pipeline.App.Rows.{update}
use llm_evaluation_pipeline.Jobs.{
  has_id, find_job, set_job_state, get_job_state, set_job_progress, state_ttl, load_state, entry_of,
}
use llm_evaluation_pipeline.Worker.{
  PipelineResult, Shared, JobReport, finished, job_cancelled, process_evaluation_job, start_found,
  start_at, start_running, process_items, process_item, record_item, interleave, is_cancelled,
  complete, stop_cancelled,
}
use llm_evaluation_pipeline.Worker.Counts.{process_evaluation_job_counts}
use llm_evaluation_pipeline.Worker.Redelivery.{process_evaluation_job_twice, skipped}
use llm_evaluation_pipeline.Worker.Steady.{IsUp}
use llm_evaluation_pipeline.Worker.Success.{alone, IsReport, process_evaluation_job_finishes}
use llm_evaluation_pipeline.Models.{Project, failed}
use llm_evaluation_pipeline.Jobs
use llm_evaluation_pipeline.Jobs.{
  get_job, get_job_progress, load_progress, safe_redis_call, overlay, in_project, is_terminal,
  cancel_found, mark_job_failed, mark_failed,
}
use llm_evaluation_pipeline.Routes.{or_404}
use llm_evaluation_pipeline.Routes.Jobs.{
  JobResponse, bare_response, cancel_job, finish_cancel, refetched,
}
use llm_evaluation_pipeline.Routes.Cancelled.{cancel_job-process_evaluation_job}

abbrev backend : Backend ℕ Unit Server Text
backend = record {
  redis = memory;
  json = memory_json;
  accepts = λ stored view. true;
  uuid4 = λ db. 100 + length db.evaluation_runs;
  str = λ e. "error";
}

abbrev item : String → BatchEvaluationItem ℕ
item answer = record {
  conversation = record {
    model_response = answer;
    question = "";
    input_tokens = 0;
    output_tokens = 0;
    latency_ms = none;
    reference_answer = "";
    citations = [];
  };
  context = [];
}

abbrev job : EvaluationJob ℕ
job = record {
  id = 5;
  created_at = 0;
  started_at = none;
  completed_at = none;
  project_id = some 1;
  status = queued;
  total_items = 2;
  completed_items = 0;
  failed_items = 0;
  error_message = none;
  items = item "good" ∷ item "bad" ∷ [];
  evaluation_run_id = none;
  quality_gate_id = none;
  batch_results = none;
}

abbrev database : Database ℕ Unit
database = record {
  projects = [];
  api_keys = [];
  evaluation_runs = [];
  metric_results = [];
  evaluation_jobs = job ∷ [];
  quality_gates = [];
  evaluation_baselines = [];
}

abbrev world : World ℕ Unit Server
world = record {
  view = database;
  stored = database;
  broken = false;
  redis = empty_server;
  clock = 0;
}

-- the pipeline that fails on one answer
abbrev evaluate : ConversationInput ℕ → List ContextChunk → Result (PipelineResult ℕ Unit)
evaluate conversation context =
    if conversation.model_response == "bad"
    then raised (evaluation_error "bad")
    else ok (record {
      relevance = some 1;
      hallucination = none;
      latency_ms = none;
      estimated_cost = none;
    })

-- another process cancels the job before item 1
abbrev cancels : ℕ → Shared ℕ Unit Server → Shared ℕ Unit Server
cancels i s =
    if i == 1
    then record s {
      redis =
          put (job_state 5) (record { value = state_text (entry_of cancelled); expires = none })
            s.redis;
    }
    else s

abbrev delivery :
    (ℕ → Shared ℕ Unit Server → Shared ℕ Unit Server) → Result JobReport × World ℕ Unit Server
delivery others = process_evaluation_job backend evaluate others 5 1 3 world

finishes_example : (delivery alone).0 ≡ ok (finished 1 1)
unfolding process_evaluation_job start_found start_at start_running process_items process_item
    record_item interleave is_cancelled complete set_job_state get_job_state load_state
    set_job_progress send ask query commit except in_session rollback ◌>>=◌ find_job update get_text
    set_text peek put
finishes_example = refl

stops_example : (delivery cancels).0 ≡ ok job_cancelled
unfolding process_evaluation_job start_found start_at start_running process_items process_item
    record_item interleave is_cancelled stop_cancelled set_job_state get_job_state load_state
    set_job_progress send ask query commit except in_session rollback ◌>>=◌ find_job update get_text
    set_text peek put
stops_example = refl

process_evaluation_job_counts_example : 1 + 1 ≡ length job.items
process_evaluation_job_counts_example =
    process_evaluation_job_counts backend evaluate alone 5 1 3 1 1 world job refl finishes_example

process_evaluation_job_twice_example :
    process_evaluation_job backend evaluate alone 5 2 3 (delivery alone).1 ≡ (
      ok (skipped (first (has_id 5) (delivery alone).1.stored.evaluation_jobs)),
      record (delivery alone).1 { view = (delivery alone).1.stored; broken = false },
    )
process_evaluation_job_twice_example =
    process_evaluation_job_twice backend evaluate alone 5 1 3 2 1 1 world finishes_example

-- a server that does not go down
memory-IsUp : IsUp memory (λ s. s.up ≡ true)
unfolding get_text set_text put
memory-IsUp = record {
  set_answers = λ k v s up.
      (put k (record { value = v; expires = some (s.now + state_ttl) }) s, (rw up refl, up));
  get_answers = λ k s up. (elim (peek k s) [ none ↦ none | some e ↦ some e.value ], rw up refl);
}

process_evaluation_job_finishes_example : IsReport 1 1 1 (delivery alone)
process_evaluation_job_finishes_example =
    process_evaluation_job_finishes backend (λ s. s.up ≡ true) Memory-IsRedis Memory-IsJson
      memory-IsUp (λ stored view. refl) evaluate 5 1 3 world job refl refl (λ e. cc) (λ e. cc)

-- the state that the dispatch of the job leaves
abbrev dispatched : World ℕ Unit Server
dispatched = record world {
  redis =
      put (job_state 5) (record { value = state_text (entry_of queued); expires = none })
        empty_server;
}

abbrev project : Project
project = record { id = 1; created_at = 0; name = "p"; description = "" }

abbrev after_cancel : World ℕ Unit Server
after_cancel = (in_session (cancel_job backend 5 project) dispatched).1

abbrev marked : EvaluationJob ℕ
marked = record job {
  status = failed;
  completed_at = some 0;
  error_message = some "Cancelled by user";
}

abbrev answer : JobResponse
answer = bare_response (record marked { status = cancelled })

cancelled_run : in_session (cancel_job backend 5 project) dispatched ≡ (ok answer, after_cancel)
unfolding cancel_job Jobs.cancel_job get_job get_job_state load_state get_job_progress load_progress
    safe_redis_call overlay in_project or_404 is_terminal cancel_found finish_cancel mark_job_failed
    mark_failed refetched bare_response set_job_state send ask query commit except in_session
    rollback ◌>>=◌ find_job update get_text set_text peek put
cancelled_run = refl

cancelled_found : first (has_id 5) after_cancel.stored.evaluation_jobs ≡ some marked
unfolding cancel_job Jobs.cancel_job get_job get_job_state load_state get_job_progress load_progress
    safe_redis_call overlay in_project or_404 is_terminal cancel_found finish_cancel mark_job_failed
    mark_failed refetched bare_response set_job_state send ask query commit except in_session
    rollback ◌>>=◌ find_job update get_text set_text peek put
cancelled_found = refl

cancelled_up : after_cancel.redis.up ≡ true
unfolding cancel_job Jobs.cancel_job get_job get_job_state load_state get_job_progress load_progress
    safe_redis_call overlay in_project or_404 is_terminal cancel_found finish_cancel mark_job_failed
    mark_failed refetched bare_response set_job_state send ask query commit except in_session
    rollback ◌>>=◌ find_job update get_text set_text peek put
cancelled_up = refl

cancel_job-process_evaluation_job_example :
    IsReport 1 1
      (length after_cancel.stored.evaluation_runs + 1)
      (process_evaluation_job backend evaluate alone 5 1 3 after_cancel)
cancel_job-process_evaluation_job_example =
    cancel_job-process_evaluation_job backend (λ s. s.up ≡ true) Memory-IsRedis Memory-IsJson
      memory-IsUp (λ stored view. refl) evaluate 5 1 3 project answer marked dispatched after_cancel
      cancelled_run cancelled_up cancelled_found
