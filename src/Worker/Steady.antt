-- ===== src/Worker/Steady.antt =====
-- The steps of a delivery whose stores all answer.
use llm_evaluation_pipeline.Prelude.{
  ℕ, ◌+◌, ◌≡◌, refl, ap, ◌∙◌, true, false, Option, some, List, [], ◌∷◌, arith, length,
  length-append, inl, inr,
}
use llm_evaluation_pipeline.Models.{
  running, ContextChunk, ConversationInput, BatchEvaluationItem, EvaluationJob, Database,
}
use llm_evaluation_pipeline.Redis.{
  Redis, IsRedis, IsJson, RedisKey, job_state, job_progress, StateEntry,
}
use llm_evaluation_pipeline.App.{Backend, World, Result, ok, raised, ◌>>=◌, rollback}
use llm_evaluation_pipeline.App.Calls.{bind_ok, ask_ok, send_ok, commit_ok}
use llm_evaluation_pipeline.Jobs.{
  set_job_progress, get_job_state, load_state, update_jobs, entry_of, state_ttl,
}
use llm_evaluation_pipeline.Worker.{
  PipelineResult, Batch, record_item, process_item, is_cancelled, run_of,
}

-- While `Up` holds of what the server holds, it answers every call.
pub record IsUp {R V : Type 0} (r : Redis R V) (Up : R → Type 0) : Type 0 where
  pub set_answers :
      (k : RedisKey) (v : V) (s : R) → Up s → (t : R) × ((r.set k v state_ttl s ≡ some t) × Up t)
  pub get_answers : (k : RedisKey) (s : R) → Up s → (o : Option V) × (r.get k s ≡ some o)

module _ {F D : Type 0} where
  -- 1 for an item that the evaluator returns a result for, and for one on which it raises
  abbrev pub successes : Result (PipelineResult F D) → ℕ
  successes (ok r) = 1
  successes (raised e) = 0

  abbrev pub failures : Result (PipelineResult F D) → ℕ
  failures (ok r) = 0
  failures (raised e) = 1

  abbrev pub count :
      (Result (PipelineResult F D) → ℕ)
      → (ConversationInput F → List ContextChunk → Result (PipelineResult F D))
      → List (BatchEvaluationItem F)
      → ℕ
  count k evaluate [] = 0
  count k evaluate (item ∷ items) =
      k (evaluate item.conversation item.context) + count k evaluate items

module _ {F D R V : Type 0} (b : Backend F D R V) (Up : R → Type 0) where
  -- between two items nothing is uncommitted, and the job's state is `running`
  pub record IsSteady (id : ℕ) (n : ℕ) (w : World F D R) : Type 0 where
    pub committed : w.view ≡ w.stored
    pub sound : w.broken ≡ false
    pub up : Up w.redis
    pub runs : length w.stored.evaluation_runs ≡ n
    pub raw : V
    pub held : b.redis.get (job_state id) w.redis ≡ some (some raw)
    pub read : b.json.loads_state raw ≡ some (entry_of running)

  module _ (redis : IsRedis b.redis) (json : IsJson b.json) (answers : IsUp b.redis Up)
      (accepts : (stored view : Database F D) → b.accepts stored view ≡ true) where
    load_state_ok :
        (raw : V) (e : StateEntry) (w : World F D R)
        → b.json.loads_state raw ≡ some e
        → load_state {D = D} b (some raw) w ≡ (ok (some e), w)
    unfolding load_state
    load_state_ok raw e w read = rw (read, load_state) refl

    pub is_cancelled_ok :
        (id n : ℕ) (w : World F D R) → IsSteady id n w → is_cancelled b id w ≡ (ok false, w)
    unfolding is_cancelled get_job_state
    is_cancelled_ok id n w s =
        bind_ok _ _ (bind_ok _ _ (ask_ok _ s.held) (load_state_ok s.raw _ w s.read)) refl

    -- the state of the job outlives a change of its progress
    held_after :
        (id : ℕ) (v x : V) (s t : R)
        → Up t
        → b.redis.get (job_state id) s ≡ some (some x)
        → b.redis.set (job_progress id) v state_ttl s ≡ some t
        → b.redis.get (job_state id) t ≡ some (some x)
    held_after id v x s t up held set =
        let (o, answered) = answers.get_answers (job_state id) t up in
        elim (redis.get-set_ne (job_progress id) (job_state id) v state_ttl s t (λ e. cc) set) [
          | inl lost ↦ ground arith
          | inr kept ↦ kept ∙ held
        ]

    pub held_set :
        (id : ℕ) (x : V) (s t : R)
        → Up t
        → b.redis.set (job_state id) x state_ttl s ≡ some t
        → b.redis.get (job_state id) t ≡ some (some x)
    held_set id x s t up set =
        let (o, answered) = answers.get_answers (job_state id) t up in
        elim (redis.get-set_self (job_state id) x state_ttl s t set) [
          | inl lost ↦ ground arith
          | inr kept ↦ kept
        ]

    -- what the `try` of an item leaves
    record IsRecorded (n : ℕ) (acc : Batch) (r : Result (PipelineResult F D)) (w v : World F D R)
        (acc' : Batch) : Type 0 where
      sound : v.broken ≡ false
      same : v.redis ≡ w.redis
      runs : length v.view.evaluation_runs ≡ n + successes r
      completed : acc'.completed ≡ acc.completed + successes r
      failed : acc'.failed ≡ acc.failed + failures r

    record_item_ok :
        (job : EvaluationJob F) (i n : ℕ) (item : BatchEvaluationItem F) (acc : Batch)
        (r : Result (PipelineResult F D)) (w : World F D R)
        → IsSteady job.id n w
        → (acc' : Batch) × ((v : World F D R) × ((record_item b job i item acc r w ≡ (ok acc', v))
              × IsRecorded n acc r w v acc'))
    unfolding record_item rollback ◌>>=◌
    record_item_ok job i n item acc (ok r) w s = (
      _,
      (
        _,
        (
          refl,
          record {
            sound = s.sound;
            same = refl;
            runs =
                (let viewed : length w.view.evaluation_runs ≡ n =
                    ap (λ db. length db.evaluation_runs) s.committed ∙ s.runs in
                  omega (
                    arith,
                    viewed,
                    length-append w.view.evaluation_runs
                        (run_of (b.uuid4 w.view) w.clock job item r ∷ []),
                  ));
            completed = refl;
            failed = (omega arith);
          },
        ),
      ),
    )
    record_item_ok job i n item acc (raised e) w s = (
      _,
      (
        _,
        (
          refl,
          record {
            sound = refl;
            same = refl;
            runs = (s.runs ∙ omega arith);
            completed = (omega arith);
            failed = refl;
          },
        ),
      ),
    )

    pub process_item_ok :
        (evaluate : ConversationInput F → List ContextChunk → Result (PipelineResult F D))
        (job : EvaluationJob F) (i n : ℕ) (item : BatchEvaluationItem F) (acc : Batch)
        (w : World F D R)
        → IsSteady job.id n w
        → let r = evaluate item.conversation item.context in
          (acc' : Batch) × ((v : World F D R) × ((process_item b evaluate job i item acc w
                ≡ (ok acc', v))
              × ((acc'.completed ≡ acc.completed + successes r)
                  × ((acc'.failed ≡ acc.failed + failures r)
                      × IsSteady job.id (n + successes r) v))))
    unfolding process_item set_job_progress
    process_item_ok evaluate job i n item acc w s =
        let (acc', (u, (recorded, h))) =
          record_item_ok job i n item acc (evaluate item.conversation item.context) w s in
        let changed : World F D R = record u {
          view =
              update_jobs job.id
                (λ j. record j { completed_items = acc'.completed; failed_items = acc'.failed })
                u.view;
        } in
        let progress : V =
          b.json.dumps_progress (record {
            total = length job.items;
            completed = acc'.completed;
            failed = acc'.failed;
          }) in
        let (t, (set, up)) =
          answers.set_answers (job_progress job.id) progress u.redis (rw h.same s.up) in
        (
          acc',
          (
            record changed { stored = changed.view; redis = t },
            (
              bind_ok _ _ recorded (
                  bind_ok _ _ refl (
                    bind_ok _ _ (commit_ok b changed (accepts _ _) h.sound)
                      (bind_ok _ _ (send_ok _ set) refl))),
              (
                h.completed,
                (
                  h.failed,
                  record {
                    committed = refl;
                    sound = h.sound;
                    up = up;
                    runs = h.runs;
                    raw = s.raw;
                    held = held_after job.id progress s.raw u.redis t up (rw h.same s.held) set;
                    read = s.read;
                  },
                ),
              ),
            ),
          ),
        )
