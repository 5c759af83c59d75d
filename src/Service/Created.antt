-- ===== src/Service/Created.antt =====
-- What a request to app/api/routes/evaluations.py leaves behind.
use llm_evaluation_pipeline.Prelude.{
  ℕ, ◌≡◌, refl, sym, ap, subst, ◌∙◌, ◌⊎◌, inl, inr, String, Bool, true, false, none, some, List,
  ◌++◌, ◌&&◌, select, ◌==◌, number_comparable,
}
use llm_evaluation_pipeline.Models.{
  ContextChunk, ConversationInput, EvaluationRun, MetricResultRecord, Database,
}
use llm_evaluation_pipeline.App.{
  Exception, http_exception, busy_error, redis_error, response_error, database_error, json_error,
  attribute_error, value_error, evaluation_error, Exec, Backend, World, Result, ok, raised, pure,
  ◌>>=◌, ◌>>◌, proceed, except, handle, in_session,
}
use llm_evaluation_pipeline.App.Hoare.{Outcome}
use llm_evaluation_pipeline.App.Calls.{bind_ok, query_ok}
use llm_evaluation_pipeline.Store.{get_metric_results, is_owned}
use llm_evaluation_pipeline.Routes.Runs.{RunResponse, run_to_response}
use llm_evaluation_pipeline.Evaluators.{Details}
use llm_evaluation_pipeline.Service.{
  Reads, attempt, Evaluated, run_of, run_evaluation, respond, create_evaluation, refuse,
}
use llm_evaluation_pipeline.Service.Stored.{IsExtended, AreRecordsOf, with_metrics}
use llm_evaluation_pipeline.Service.Atomic.{
  HasRun, KeepsRun, with_run, attempt-Outcome, run_evaluation-Outcome,
}

module _ {F R V : Type 0} (b : Backend F (Details F) R V) (reads : Reads F R) (project : ℕ)
    (profile : String) (conversation : ConversationInput F) (chunks : List ContextChunk) where
  -- the rows of a run's results, as the route reads them
  abbrev pub rows_of : ℕ → Database F (Details F) → List (MetricResultRecord F (Details F))
  rows_of id db =
      select (λ m. (m.run_id == id) && is_owned none id db.evaluation_runs) db.metric_results

  -- the run that is stored for an evaluation in this world
  abbrev pub run_for : World F (Details F) R → Evaluated F → EvaluationRun F (Details F)
  run_for w ev = run_of b (b.uuid4 w.stored) w.clock (some project) profile conversation chunks ev

  -- the request got a slot and its evaluation returned, and its run is new in the database, with
  -- its results
  abbrev pub HasStored :
      Bool
      → Result (Evaluated F)
      → Database F (Details F)
      → World F (Details F) R
      → EvaluationRun F (Details F)
      → Type 0
  HasStored acquired evaluated new w run =
      (acquired ≡ true)
      × ((ev : Evaluated F) × ((evaluated ≡ ok ev)
            × ((run ≡ run_for w ev) × IsExtended (run_for w ev) ev.metric_results w.stored new)))

  -- what is in the database when something raised
  abbrev pub IsLeft :
      Bool → Result (Evaluated F) → World F (Details F) R → World F (Details F) R → Type 0
  IsLeft acquired evaluated w v =
      (v.stored ≡ w.stored)
      ⊎ ((run : EvaluationRun F (Details F)) × HasStored acquired evaluated v.stored w run)

  -- how a request ends: with one run and its results stored and shown, refused with nothing stored, or
  -- refused after the run and its results were stored
  abbrev pub IsCreated :
      Bool
      → Result (Evaluated F)
      → World F (Details F) R
      → Result (RunResponse F (Details F)) × World F (Details F) R
      → Type 0
  IsCreated acquired evaluated w (ok r, v) =
      (run : EvaluationRun F (Details F)) × (HasStored acquired evaluated v.stored w run
        × (r ≡ run_to_response (rows_of run.id v.stored) run))
  IsCreated acquired evaluated w (raised e, v) =
      IsLeft acquired evaluated w v × ((e ≡ http_exception 503) ⊎ (e ≡ http_exception 500))

  refused :
      (acquired : Bool) (evaluated : Result (Evaluated F)) (e : Exception)
      (w v : World F (Details F) R)
      → IsLeft acquired evaluated w v
      → IsCreated acquired evaluated w (refuse b reads e v)
  unfolding refuse
  refused acquired evaluated busy_error w v h = (h, inl refl)
  refused acquired evaluated (http_exception c) w v h = (h, inr refl)
  refused acquired evaluated redis_error w v h = (h, inr refl)
  refused acquired evaluated response_error w v h = (h, inr refl)
  refused acquired evaluated database_error w v h = (h, inr refl)
  refused acquired evaluated json_error w v h = (h, inr refl)
  refused acquired evaluated attribute_error w v h = (h, inr refl)
  refused acquired evaluated value_error w v h = (h, inr refl)
  refused acquired evaluated (evaluation_error t) w v h = (h, inr refl)

  respond-Outcome :
      (E : World F (Details F) R → Type 0) (run : EvaluationRun F (Details F))
      (v : World F (Details F) R)
      → v.broken ≡ false
      → E v
      → Outcome
          (λ r u. (r ≡ run_to_response (rows_of run.id v.view) run) × (u ≡ v))
          E
          (respond b reads run v)
  unfolding respond get_metric_results
  respond-Outcome E run v h e = attempt-Outcome Q E database_error reads.lists _ v e (
      subst (Outcome Q E)
        (sym (bind_ok (get_metric_results run.id none) rest (query_ok _ v h) refl))
        (attempt-Outcome Q E value_error reads.builds (pure response) v e (refl, refl)))
    where
      response : RunResponse F (Details F)
      response = run_to_response (rows_of run.id v.view) run

      Q : RunResponse F (Details F) → World F (Details F) R → Type 0
      Q r u = (r ≡ response) × (u ≡ v)

      rest :
          List (MetricResultRecord F (Details F)) → Exec F (Details F) R (RunResponse F (Details F))
      rest records = attempt value_error reads.builds >> pure (run_to_response records run)

  -- the session as `in_session` opens it
  abbrev opened : World F (Details F) R → World F (Details F) R
  opened w = record w { view = w.stored; broken = false }

  -- the database after a commit, from what is known of the rows
  extended :
      (ev : Evaluated F) (w : World F (Details F) R) (new : Database F (Details F))
      (rs : List (MetricResultRecord F (Details F)))
      → AreRecordsOf (run_for w ev).id ev.metric_results rs
      → new
        ≡ (with_metrics
            (with_run b reads (some project) profile conversation chunks (opened w) (run_for w ev))
            (w.stored.metric_results ++ rs)).view
      → IsExtended (run_for w ev) ev.metric_results w.stored new
  extended ev w new rs are stored = record {
    evaluation_runs = ap (λ d. d.evaluation_runs) stored;
    records = rs;
    metric_results = ap (λ d. d.metric_results) stored;
    are_records = are;
    others =
        subst
          (λ d. d ≡ record w.stored {
            evaluation_runs = d.evaluation_runs;
            metric_results = d.metric_results;
          })
          (sym stored) refl;
  }

  left :
      (acquired : Bool) (evaluated : Result (Evaluated F)) (w v : World F (Details F) R)
      → (v.stored ≡ w.stored)
        ⊎ KeepsRun b reads
            (some project)
            profile
            conversation
            chunks
            acquired
            evaluated
            (opened w)
            v
      → IsLeft acquired evaluated w v
  left acquired evaluated w v (inl h) = inl h
  left acquired evaluated w v (inr (a, (ev, (returned, (rs, (are, stored)))))) =
      inr (run_for w ev, (a, (ev, (returned, (refl, extended ev w v.stored rs are stored)))))

  shown :
      (acquired : Bool) (evaluated : Result (Evaluated F)) (w v : World F (Details F) R)
      (run : EvaluationRun F (Details F))
      (o : Result (RunResponse F (Details F)) × World F (Details F) R)
      → v.view ≡ v.stored
      → HasStored acquired evaluated v.stored w run
      → Outcome
          (λ r u. (r ≡ run_to_response (rows_of run.id v.view) run) × (u ≡ v))
          (IsLeft acquired evaluated w)
          o
      → IsCreated acquired evaluated w (handle (refuse b reads) o)
  shown acquired evaluated w v run (raised e, u) view stored h = refused acquired evaluated e w u h
  shown acquired evaluated w v run (ok r, u) view stored (e, same) = (
    run,
    (
      subst (λ z. HasStored acquired evaluated z.stored w run) (sym same) stored,
      e ∙ ap (λ d. run_to_response (rows_of run.id d) run) (view ∙ ap (λ z. z.stored) (sym same)),
    ),
  )

  answered :
      (acquired : Bool) (evaluated : Result (Evaluated F)) (w : World F (Details F) R)
      (o : Result (EvaluationRun F (Details F)) × World F (Details F) R)
      → Outcome
          (HasRun b reads (some project) profile conversation chunks acquired evaluated (opened w))
          (λ v.
            (v.stored ≡ w.stored)
            ⊎ KeepsRun b reads
                (some project)
                profile
                conversation
                chunks
                acquired
                evaluated
                (opened w)
                v)
          o
      → IsCreated acquired evaluated w (handle (refuse b reads) (proceed (respond b reads) o))
  answered acquired evaluated w (raised e, v) h =
      refused acquired evaluated e w v (left acquired evaluated w v h)
  answered acquired evaluated w (ok run, v)
        (a, (ev, (returned, (e, (broken, (view, (rs, (are, stored)))))))) =
      let has : HasStored acquired evaluated v.stored w run =
        (a, (ev, (returned, (e, extended ev w v.stored rs are stored)))) in
      shown acquired evaluated w v run (respond b reads run v) view has
        (respond-Outcome (IsLeft acquired evaluated w) run v broken (inr (run, has)))

  closed :
      (acquired : Bool) (evaluated : Result (Evaluated F)) (w : World F (Details F) R)
      (o : Result (RunResponse F (Details F)) × World F (Details F) R)
      → IsCreated acquired evaluated w o
      → IsCreated acquired evaluated w (o.0, record o.1 { view = o.1.stored; broken = false })
  closed acquired evaluated w (ok r, v) h = h
  closed acquired evaluated w (raised e, v) h = h

  -- A request for an evaluation leaves behind all of its evaluation or nothing. It is answered with a run
  -- only if it got a slot and the evaluation returned: then the database holds that run of the project
  -- and a row for each of its metric results, in order, with no other change, and the answer shows
  -- the run and the rows with its identifier. Every other request ends in a 503 or a 500, and the
  -- database is as it was, or, where what is read after the commit is not answered or the response
  -- cannot be built, holds that run and those rows and no other change.
  pub create_evaluation-IsCreated :
      (acquired : Bool) (evaluated : Result (Evaluated F)) (w : World F (Details F) R)
      → IsCreated acquired evaluated w (
          in_session
            (create_evaluation b reads acquired evaluated project profile conversation chunks)
            w)
  unfolding create_evaluation in_session except ◌>>=◌
  create_evaluation-IsCreated acquired evaluated w = closed acquired evaluated w _ (
      answered acquired evaluated w
        (run_evaluation b reads acquired evaluated (some project) profile conversation chunks
          (opened w))
        (run_evaluation-Outcome b reads (some project) profile conversation chunks acquired
          evaluated (opened w)))
