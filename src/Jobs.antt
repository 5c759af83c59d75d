-- ===== src/Jobs.antt =====
-- app/services/job_service.py and the job state of app/services/redis_queue.py.
use llm_evaluation_pipeline.Prelude.{
  ℕ, String, Bool, true, false, Option, none, some, List, [], ◌∷◌, ◌++◌, ◌&&◌, if◌then◌else◌, ◌==◌,
  number_comparable, first, length,
}
use llm_evaluation_pipeline.Models.{
  JobStatus, queued, running, completed, failed, cancelled, BatchEvaluationItem, BatchResult,
  EvaluationJob, Database,
}
use llm_evaluation_pipeline.Redis.{queue, job_state, job_progress, StateEntry, ProgressEntry}
use llm_evaluation_pipeline.App.{
  Exec, Backend, json_error, redis_error, ok, raised, pure, raise, gets, ◌>>=◌, ◌>>◌, change_view,
  query, ask, send, commit, except,
}
use llm_evaluation_pipeline.App.Rows.{update}

-- STATE_TTL: 24 hours
abbrev pub state_ttl : ℕ
state_ttl = 86400

abbrev pub entry_of : JobStatus → StateEntry
entry_of s = record { state = s; completed = none; failed = none; error = none }

-- `status in ("completed", "failed", "cancelled")`
unfoldable pub is_terminal : JobStatus → Bool
is_terminal completed = true
is_terminal failed = true
is_terminal cancelled = true
is_terminal queued = false
is_terminal running = false

-- `project_id is None or job.project_id == project_id`
unfoldable pub in_project : Option ℕ → Option ℕ → Bool
in_project none owner = true
in_project (some p) none = false
in_project (some p) (some o) = o == p

module _ {F : Type 0} where
  abbrev pub has_id : ℕ → EvaluationJob F → Bool
  has_id id job = job.id == id

  abbrev pub update_jobs :
      {D : Type 0} → ℕ → (EvaluationJob F → EvaluationJob F) → Database F D → Database F D
  update_jobs id g db = record db { evaluation_jobs = update (has_id id) g db.evaluation_jobs }

module _ {F D R : Type 0} where
  -- `db.query(EvaluationJob).filter(EvaluationJob.id == job_id).first()`
  unfoldable pub find_job : ℕ → Exec F D R (Option (EvaluationJob F))
  find_job id = query λ db. first (has_id id) db.evaluation_jobs

  -- assignments to the attributes of a job
  abbrev pub change_job : ℕ → (EvaluationJob F → EvaluationJob F) → Exec F D R (Unit {0})
  change_job id g = change_view (update_jobs id g)

  abbrev pub now : Exec F D R ℕ
  now = gets λ w. w.clock

module _ {F D R V : Type 0} (b : Backend F D R V) where
  unfoldable pub set_job_state : ℕ → StateEntry → Exec F D R (Unit {0})
  set_job_state id entry = send (b.redis.set (job_state id) (b.json.dumps_state entry) state_ttl)

  -- `json.loads` of what was found
  unfoldable pub load_state : Option V → Exec F D R (Option StateEntry)
  load_state none = pure none
  load_state (some raw) = elim (b.json.loads_state raw) [
    | none ↦ raise json_error
    | some e ↦ pure (some e)
  ]

  unfoldable pub get_job_state : ℕ → Exec F D R (Option StateEntry)
  get_job_state id = ask (b.redis.get (job_state id)) >>= load_state

  unfoldable pub set_job_progress : ℕ → ProgressEntry → Exec F D R (Unit {0})
  set_job_progress id entry =
      send (b.redis.set (job_progress id) (b.json.dumps_progress entry) state_ttl)

  unfoldable pub load_progress : Option V → Exec F D R (Option ProgressEntry)
  load_progress none = pure none
  load_progress (some raw) = elim (b.json.loads_progress raw) [
    | none ↦ raise json_error
    | some e ↦ pure (some e)
  ]

  unfoldable pub get_job_progress : ℕ → Exec F D R (Option ProgressEntry)
  get_job_progress id = ask (b.redis.get (job_progress id)) >>= load_progress

  -- The task enters arq's queue before the state is written.
  unfoldable pub dispatch_job : ℕ → Exec F D R (Unit {0})
  dispatch_job id = do send (b.redis.enqueue_job id); set_job_state id (entry_of queued)

  -- `enqueue_job`: the list queue beside arq
  unfoldable pub enqueue_job : ℕ → Exec F D R (Unit {0})
  enqueue_job id = do send (b.redis.rpush queue id); set_job_state id (entry_of queued)

  unfoldable pub dequeue_job : Exec F D R (Option ℕ)
  dequeue_job w = elim (b.redis.blpop queue 5 w.redis) [
    | none ↦ (raised redis_error, w)
    | some (found, r) ↦ (ok found, record w { redis = r })
  ]

  unfoldable pub cancel_found : ℕ → Option StateEntry → Exec F D R Bool
  cancel_found id none = pure false
  cancel_found id (some entry) =
      if is_terminal entry.state
      then pure false
      else do set_job_state id (entry_of cancelled); pure true

  -- `redis_queue.cancel_job`
  unfoldable pub cancel_job : ℕ → Exec F D R Bool
  cancel_job id = do cancel_found id (← get_job_state id)

  -- `_safe_redis_call` of a getter
  unfoldable pub safe_redis_call : {A : Type 0} → Exec F D R (Option A) → Exec F D R (Option A)
  safe_redis_call call = except call λ _. pure none

  unfoldable pub create_job :
      List (BatchEvaluationItem F) → Option ℕ → Option ℕ → Exec F D R (EvaluationJob F)
  create_job items quality_gate_id project_id = do
    id ← gets (λ w. b.uuid4 w.view)
    created ← now
    let job : EvaluationJob F = record {
      id = id;
      created_at = created;
      started_at = none;
      completed_at = none;
      project_id = project_id;
      status = queued;
      total_items = length items;
      completed_items = 0;
      failed_items = 0;
      error_message = none;
      items = items;
      evaluation_run_id = none;
      quality_gate_id = quality_gate_id;
      batch_results = none;
    }
    change_view (λ db. record db { evaluation_jobs = db.evaluation_jobs ++ job ∷ [] })
    commit b
    pure job

  abbrev pub show_state : Option StateEntry → EvaluationJob F → EvaluationJob F
  show_state none job = job
  show_state (some e) job = record job { status = e.state }

  abbrev pub show_progress : Option ProgressEntry → EvaluationJob F → EvaluationJob F
  show_progress none job = job
  show_progress (some p) job = record job {
    total_items = p.total;
    completed_items = p.completed;
    failed_items = p.failed;
  }

  -- the live state of Redis laid over the row of the session
  unfoldable pub overlay : Option (EvaluationJob F) → Exec F D R (Option (EvaluationJob F))
  overlay none = pure none
  overlay (some job) = do
    state ← safe_redis_call (get_job_state job.id)
    progress ← safe_redis_call (get_job_progress job.id)
    change_job job.id (λ j. show_progress progress (show_state state j))
    pure (some (show_progress progress (show_state state job)))

  unfoldable pub get_job : ℕ → Option ℕ → Exec F D R (Option (EvaluationJob F))
  get_job id project_id = do
    found ←
        query
          (λ db. first (λ j. has_id id j && in_project project_id j.project_id) db.evaluation_jobs)
    overlay found

  -- `if job and job.status == "queued"`
  unfoldable pub mark_started : Option (EvaluationJob F) → Exec F D R (Unit {0})
  mark_started none = pure tt
  mark_started (some job) = elim job.status [
    | queued ↦ do
      started ← now
      change_job job.id (λ j. record j { status = running; started_at = some started })
      commit b
    | _ ↦ pure tt
  ]

  unfoldable pub mark_job_started : ℕ → Exec F D R (Unit {0})
  mark_job_started id = do mark_started (← find_job id)

  abbrev pub or_old : {A : Type 0} → Option A → Option A → Option A
  or_old none old = old
  or_old (some x) old = some x

  unfoldable pub mark_completed :
      Option ℕ → Option (List BatchResult) → Option (EvaluationJob F) → Exec F D R (Unit {0})
  mark_completed run results none = pure tt
  mark_completed run results (some job) = do
    done ← now
    change_job job.id (λ j. record j {
      status = completed;
      completed_at = some done;
      completed_items = j.total_items;
      evaluation_run_id = or_old run j.evaluation_run_id;
      batch_results = or_old results j.batch_results;
    })
    commit b

  unfoldable pub mark_job_completed :
      ℕ → Option ℕ → Option (List BatchResult) → Exec F D R (Unit {0})
  mark_job_completed id run results = do mark_completed run results (← find_job id)

  unfoldable pub mark_failed : String → Option (EvaluationJob F) → Exec F D R (Unit {0})
  mark_failed message none = pure tt
  mark_failed message (some job) = do
    done ← now
    change_job job.id
        (λ j. record j { status = failed; completed_at = some done; error_message = some message })
    commit b

  unfoldable pub mark_job_failed : ℕ → String → Exec F D R (Unit {0})
  mark_job_failed id message = do mark_failed message (← find_job id)
