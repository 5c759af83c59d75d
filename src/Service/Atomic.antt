-- ===== src/Service/Atomic.antt =====
-- `run_evaluation` and the route of app/api/routes/evaluations.py store all of an evaluation or nothing.
use llm_evaluation_pipeline.Prelude.{
  ℕ, ◌≡◌, refl, sym, ap, subst, ◌∙◌, ◌⊎◌, inl, inr, Bool-cases, false≢true, String, Bool, true,
  false, Option, List, [], ◌∷◌, ◌++◌, ◌&&◌, not, if◌then◌else◌, number_comparable,
}
use llm_evaluation_pipeline.Metric.{MetricResult}
use llm_evaluation_pipeline.Models.{
  ContextChunk, ConversationInput, EvaluationRun, MetricResultRecord,
}
use llm_evaluation_pipeline.App.{
  Exception, database_error, Exec, Backend, World, Result, ok, raised, pure, ◌>>=◌, ◌>>◌, commit,
}
use llm_evaluation_pipeline.App.Hoare.{Outcome, Outcome-bind}
use llm_evaluation_pipeline.App.Calls.{bind_ok, commit_ok}
use llm_evaluation_pipeline.App.Rows.{both}
use llm_evaluation_pipeline.Evaluators.{Details}
use llm_evaluation_pipeline.Service.{
  Reads, attempt, Evaluated, add_records, store_run, run_of, flush, run_evaluation,
}
use llm_evaluation_pipeline.Service.Stored.{
  AreRecordsOf, HasRecords, with_metrics, add_records-HasRecords,
}

unbroken : (b : Bool) → not b ≡ true → b ≡ false
unbroken false h = refl
unbroken true h = elim (false≢true h) [ ]

module _ {F D R A : Type 0} where
  pub attempt-Outcome :
      (Q : A → World F D R → Type 0) (E : World F D R → Type 0) (e : Exception)
      (passes : World F D R → Bool) (k : Exec F D R A) (w : World F D R)
      → E w
      → Outcome Q E (k w)
      → Outcome Q E ((attempt e passes >> k) w)
  unfolding attempt ◌>>=◌
  attempt-Outcome Q E e passes k w stopped next = elim (Bool-cases (passes w)) [
    | inl h ↦ rw h next
    | inr h ↦ rw h stopped
  ]

module _ {F R V : Type 0} (b : Backend F (Details F) R V) (reads : Reads F R) where
  -- the end of `store_run`
  abbrev finish : EvaluationRun F (Details F) → Exec F (Details F) R (EvaluationRun F (Details F))
  finish run = commit b >> (attempt database_error reads.refreshes >> pure run)

  finish_raised :
      (run : EvaluationRun F (Details F)) (w : World F (Details F) R)
      → (b.accepts w.stored w.view && not w.broken) ≡ false
      → finish run w ≡ (raised database_error, record w { broken = true })
  unfolding ◌>>=◌ commit
  finish_raised run w e = rw e refl

  -- what is known after `commit`
  abbrev IsFinished :
      EvaluationRun F (Details F)
      → World F (Details F) R
      → EvaluationRun F (Details F)
      → World F (Details F) R
      → Type 0
  IsFinished run w r v =
      (r ≡ run) × ((v.broken ≡ false) × ((v.view ≡ v.stored) × (v.stored ≡ w.view)))

  -- nothing was committed, or all of the view
  abbrev IsAllOrNone : World F (Details F) R → World F (Details F) R → Type 0
  IsAllOrNone w v = (v.stored ≡ w.stored) ⊎ (v.stored ≡ w.view)

  finish-Outcome :
      (run : EvaluationRun F (Details F)) (w : World F (Details F) R)
      → Outcome (IsFinished run w) (IsAllOrNone w) (finish run w)
  finish-Outcome run w = elim (Bool-cases (b.accepts w.stored w.view && not w.broken)) [
    | inl e ↦
        let (h, k) = both (b.accepts w.stored w.view) (not w.broken) e in
        let committed : World F (Details F) R = record w { stored = w.view } in
        subst (Outcome (IsFinished run w) (IsAllOrNone w))
          (sym (bind_ok (commit b) _ (commit_ok b w h (unbroken w.broken k)) refl))
          (attempt-Outcome (IsFinished run w) (IsAllOrNone w) database_error reads.refreshes
            (pure run) committed (inr refl) (refl, (unbroken w.broken k, (refl, refl))))
    | inr e ↦
        subst (Outcome (IsFinished run w) (IsAllOrNone w)) (sym (finish_raised run w e)) (inl refl)
  ]

  -- the rows of the metric results, and the end
  abbrev finish_records :
      EvaluationRun F (Details F)
      → List (MetricResult F (Details F))
      → Exec F (Details F) R (EvaluationRun F (Details F))
  finish_records run ms = add_records b run.id ms >> finish run

  -- all was committed: from a session with the run in view, the rows are new
  abbrev pub IsStored :
      EvaluationRun F (Details F)
      → List (MetricResult F (Details F))
      → World F (Details F) R
      → EvaluationRun F (Details F)
      → World F (Details F) R
      → Type 0
  IsStored run ms w r v =
      (r ≡ run)
      × ((v.broken ≡ false)
          × ((v.view ≡ v.stored)
              × ((rs : List (MetricResultRecord F (Details F))) × (AreRecordsOf run.id ms rs
                    × (v.stored ≡ (with_metrics w (w.view.metric_results ++ rs)).view)))))

  -- the same of what was committed before something raised
  abbrev pub IsKept :
      EvaluationRun F (Details F)
      → List (MetricResult F (Details F))
      → World F (Details F) R
      → World F (Details F) R
      → Type 0
  IsKept run ms w v =
      (rs : List (MetricResultRecord F (Details F))) × (AreRecordsOf run.id ms rs
        × (v.stored ≡ (with_metrics w (w.view.metric_results ++ rs)).view))

  -- something raised before the commit, or after it
  abbrev IsStopped :
      EvaluationRun F (Details F)
      → List (MetricResult F (Details F))
      → World F (Details F) R
      → World F (Details F) R
      → Type 0
  IsStopped run ms w v = (v.stored ≡ w.stored) ⊎ IsKept run ms w v

  finish_records-Outcome :
      (run : EvaluationRun F (Details F)) (ms : List (MetricResult F (Details F)))
      (w : World F (Details F) R)
      → Outcome (IsStored run ms w) (IsStopped run ms w) (finish_records run ms w)
  finish_records-Outcome run ms w =
      Outcome-bind (λ x v. HasRecords run.id ms w v) (IsStored run ms w) (IsStopped run ms w)
        (add_records b run.id ms) (λ _. finish run) w
        (never (add_records b run.id ms w) (add_records-HasRecords b run.id ms w))
        λ x u h. stored u h (finish run u) (finish-Outcome run u)
    where
      never :
          (o : Result (Unit {0}) × World F (Details F) R)
          → Outcome (λ x v. HasRecords run.id ms w v) (λ v. ⊥) o
          → Outcome (λ x v. HasRecords run.id ms w v) (IsStopped run ms w) o
      never (ok x, v) h = h
      never (raised e, v) h = elim h [ ]

      stored :
          (u : World F (Details F) R)
          → HasRecords run.id ms w u
          → (o : Result (EvaluationRun F (Details F)) × World F (Details F) R)
          → Outcome (IsFinished run u) (IsAllOrNone u) o
          → Outcome (IsStored run ms w) (IsStopped run ms w) o
      stored u (rs, (a, e)) (ok r, v) (h, (k, (i, j))) =
          (h, (k, (i, (rs, (a, j ∙ ap (λ x. x.view) e)))))
      stored u (rs, (a, e)) (raised x, v) (inl h) = inl (h ∙ ap (λ x. x.stored) e)
      stored u (rs, (a, e)) (raised x, v) (inr h) = inr (rs, (a, h ∙ ap (λ x. x.view) e))

module _ {F R V : Type 0} (b : Backend F (Details F) R V) (reads : Reads F R) (project : Option ℕ)
    (profile : String) (conversation : ConversationInput F) (chunks : List ContextChunk) where
  -- the run that a session with this view and clock makes of an evaluation
  abbrev pub new_run : World F (Details F) R → Evaluated F → EvaluationRun F (Details F)
  new_run w ev = run_of b (b.uuid4 w.view) w.clock project profile conversation chunks ev

  abbrev pub with_run : World F (Details F) R → EvaluationRun F (Details F) → World F (Details F) R
  with_run w run = record w {
    view = record w.view { evaluation_runs = w.view.evaluation_runs ++ run ∷ [] };
  }

  flush-Outcome :
      (K : World F (Details F) R → Type 0) (w : World F (Details F) R)
      → Outcome (λ x v. v ≡ w) (λ v. (v.stored ≡ w.stored) ⊎ K v) (flush b w)
  unfolding flush
  flush-Outcome K w = go (b.accepts w.stored w.view && not w.broken)
    where
      go :
          (c : Bool)
          → Outcome {A = Unit {0}}
              (λ x v. v ≡ w)
              (λ v. (v.stored ≡ w.stored) ⊎ K v)
              (if c then (ok tt, w) else (raised database_error, record w { broken = true }))
      go true = refl
      go false = inl refl

  store_run-Outcome :
      (ev : Evaluated F) (w : World F (Details F) R)
      → Outcome
          (IsStored b reads (new_run w ev) ev.metric_results (with_run w (new_run w ev)))
          (IsStopped b reads (new_run w ev) ev.metric_results (with_run w (new_run w ev)))
          (store_run b reads project profile conversation chunks ev w)
  unfolding store_run ◌>>=◌
  store_run-Outcome ev w =
      let run = new_run w ev in
      let opened = with_run w run in
      Outcome-bind (λ x v. v ≡ opened) (IsStored b reads run ev.metric_results opened)
        (IsStopped b reads run ev.metric_results opened) (flush b)
        (λ _. finish_records b reads run ev.metric_results) opened
        (flush-Outcome (IsKept b reads run ev.metric_results opened) opened)
        λ x v e.
          subst
            (λ v.
              Outcome (IsStored b reads run ev.metric_results opened)
                (IsStopped b reads run ev.metric_results opened)
                (finish_records b reads run ev.metric_results v))
            (sym e) (finish_records-Outcome b reads run ev.metric_results opened)

  -- a run was stored, which needs a slot and an evaluation that returned
  abbrev pub HasRun :
      Bool
      → Result (Evaluated F)
      → World F (Details F) R
      → EvaluationRun F (Details F)
      → World F (Details F) R
      → Type 0
  HasRun acquired evaluated w r v =
      (acquired ≡ true)
      × ((ev : Evaluated F) × ((evaluated ≡ ok ev)
            × IsStored b reads (new_run w ev) ev.metric_results (with_run w (new_run w ev)) r v))

  -- the same where something raised after the commit
  abbrev pub KeepsRun :
      Bool → Result (Evaluated F) → World F (Details F) R → World F (Details F) R → Type 0
  KeepsRun acquired evaluated w v =
      (acquired ≡ true)
      × ((ev : Evaluated F) × ((evaluated ≡ ok ev)
            × IsKept b reads (new_run w ev) ev.metric_results (with_run w (new_run w ev)) v))

  pub run_evaluation-Outcome :
      (acquired : Bool) (evaluated : Result (Evaluated F)) (w : World F (Details F) R)
      → Outcome
          (HasRun acquired evaluated w)
          (λ v. (v.stored ≡ w.stored) ⊎ KeepsRun acquired evaluated w v)
          (run_evaluation b reads acquired evaluated project profile conversation chunks w)
  unfolding run_evaluation ◌>>=◌
  run_evaluation-Outcome false evaluated w = inl refl
  run_evaluation-Outcome true (raised e) w = inl refl
  run_evaluation-Outcome true (ok ev) w =
      go (store_run b reads project profile conversation chunks ev w) (store_run-Outcome ev w)
    where
      go :
          (o : Result (EvaluationRun F (Details F)) × World F (Details F) R)
          → Outcome
              (IsStored b reads (new_run w ev) ev.metric_results (with_run w (new_run w ev)))
              (IsStopped b reads (new_run w ev) ev.metric_results (with_run w (new_run w ev)))
              o
          → Outcome
              (HasRun true (ok ev) w)
              (λ v. (v.stored ≡ w.stored) ⊎ KeepsRun true (ok ev) w v)
              o
      go (ok r, v) h = (refl, (ev, (refl, h)))
      go (raised e, v) (inl h) = inl h
      go (raised e, v) (inr h) = inr (refl, (ev, (refl, h)))
