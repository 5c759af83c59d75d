-- ===== src/Service/Stored.antt =====
-- What `run_evaluation` of app/services/evaluation_service.py adds to the database.
use llm_evaluation_pipeline.Prelude.{
  ℕ, ◌≡◌, refl, sym, ap, ◌∙◌, some, List, [], ◌∷◌, ◌++◌, append_nil,
}
use mathlib.Core.List.{append_assoc}
use llm_evaluation_pipeline.Metric.{MetricResult}
use llm_evaluation_pipeline.Models.{EvaluationRun, MetricResultRecord, Database}
use llm_evaluation_pipeline.App.{Backend, World, Result, ok, raised, ◌>>=◌}
use llm_evaluation_pipeline.App.Hoare.{Outcome}
use llm_evaluation_pipeline.Evaluators.{Details}
use llm_evaluation_pipeline.Service.{add_record, add_records}

module _ {F : Type 0} where
  -- the rows of a run's metric results, one for each in order
  abbrev pub AreRecordsOf :
      ℕ → List (MetricResult F (Details F)) → List (MetricResultRecord F (Details F)) → Type 0
  AreRecordsOf id [] [] = Unit
  AreRecordsOf id [] (r ∷ rs) = ⊥
  AreRecordsOf id (m ∷ ms) [] = ⊥
  AreRecordsOf id (m ∷ ms) (r ∷ rs) =
      ((r.run_id ≡ id)
        × ((r.metric ≡ m.metric)
            × ((r.score ≡ m.score)
                × ((r.passed ≡ m.passed)
                    × ((r.evaluator_version ≡ m.evaluator_version)
                        × ((r.details ≡ some m.details) × (r.error ≡ m.error)))))))
      × AreRecordsOf id ms rs

  -- `new` is `old` with one run and with rows for its metric results, and no other table differs
  pub record IsExtended (run : EvaluationRun F (Details F)) (ms : List (MetricResult F (Details F)))
      (old new : Database F (Details F)) : Type 0 where
    pub evaluation_runs : new.evaluation_runs ≡ old.evaluation_runs ++ run ∷ []
    pub records : List (MetricResultRecord F (Details F))
    pub metric_results : new.metric_results ≡ old.metric_results ++ records
    pub are_records : AreRecordsOf run.id ms records
    pub others :
        new
        ≡ record old { evaluation_runs = new.evaluation_runs; metric_results = new.metric_results }

module _ {F R : Type 0} where
  -- the session with these metric results
  abbrev pub with_metrics :
      World F (Details F) R → List (MetricResultRecord F (Details F)) → World F (Details F) R
  with_metrics w rs = record w { view = record w.view { metric_results = rs } }

  -- rows for the results were added one by one
  abbrev pub HasRecords :
      ℕ → List (MetricResult F (Details F)) → World F (Details F) R → World F (Details F) R → Type 0
  HasRecords id ms w v =
      (rs : List (MetricResultRecord F (Details F))) × (AreRecordsOf id ms rs
        × (v ≡ with_metrics w (w.view.metric_results ++ rs)))

module _ {F R V : Type 0} (b : Backend F (Details F) R V) where
  pub add_records-HasRecords :
      (id : ℕ) (ms : List (MetricResult F (Details F))) (w : World F (Details F) R)
      → Outcome (λ x v. HasRecords id ms w v) (λ v. ⊥) (add_records b id ms w)
  unfolding add_records add_record ◌>>=◌
  add_records-HasRecords id [] w =
      ([], (tt, ap (with_metrics w) (sym (append_nil w.view.metric_results))))
  add_records-HasRecords id (m ∷ ms) w =
      go (add_records b id ms after) (add_records-HasRecords id ms after)
    where
      row : MetricResultRecord F (Details F)
      row = record {
        id = b.uuid4 w.view;
        created_at = w.clock;
        run_id = id;
        metric = m.metric;
        score = m.score;
        passed = m.passed;
        evaluator_version = m.evaluator_version;
        details = some m.details;
        error = m.error;
      }

      after : World F (Details F) R
      after = with_metrics w (w.view.metric_results ++ row ∷ [])

      go :
          (o : Result (Unit {0}) × World F (Details F) R)
          → Outcome (λ x v. HasRecords id ms after v) (λ v. ⊥) o
          → Outcome (λ x v. HasRecords id (m ∷ ms) w v) (λ v. ⊥) o
      go (ok x, v) (rs, (h, e)) = (
        row ∷ rs,
        (
          ((refl, (refl, (refl, (refl, (refl, (refl, refl)))))), h),
          e ∙ ap (with_metrics w) (append_assoc w.view.metric_results (row ∷ []) rs),
        ),
      )
      go (raised e, v) h = h
