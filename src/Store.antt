-- ===== src/Store.antt =====
-- The rows of runs, baselines and quality gates: the queries and inserts of
-- app/services/evaluation_service.py, app/services/baseline_service.py and
-- app/services/quality_gate_service.py, and the lists of app/services/job_service.py.
pub mod Pages
mod Tests
use llm_evaluation_pipeline.Prelude.{
  ℕ, String, Bool, true, false, Option, none, some, List, [], ◌∷◌, ◌++◌, ◌&&◌, not, if◌then◌else◌,
  ◌==◌, number_comparable, text_comparable, first, leb, ltb, select, take, drop, length,
}
use llm_evaluation_pipeline.Dict.{Dict}
use llm_evaluation_pipeline.Number.{Float}
use llm_evaluation_pipeline.Gate.{Threshold, default_thresholds}
use llm_evaluation_pipeline.Models.{
  EvaluationRun, MetricResultRecord, EvaluationJob, EvaluationBaseline, QualityGate, Database,
}
use llm_evaluation_pipeline.App.{
  Exception, value_error, Exec, Backend, World, Result, ok, raised, pure, raise, gets, ◌>>=◌, ◌>>◌,
  change_view, query, commit,
}
use llm_evaluation_pipeline.App.Rows.{update}
use llm_evaluation_pipeline.Jobs.{in_project, now}

module _ {A : Type 0} (created_at : A → ℕ) where
  -- `ORDER BY created_at DESC`, with rows of the same time in the order of insertion, which is one of
  -- the orders that the database may choose
  unfoldable pub insert_newest : A → List A → List A
  insert_newest x [] = x ∷ []
  insert_newest x (y ∷ ys) =
      if leb (created_at y) (created_at x) then x ∷ y ∷ ys else y ∷ insert_newest x ys

  unfoldable pub newest_first : List A → List A
  newest_first [] = []
  newest_first (x ∷ xs) = insert_newest x (newest_first xs)

module _ {A : Type 0} (project_of : A → Option ℕ) where
  -- the filter on the project, where there is one
  unfoldable pub scoped : Option ℕ → List A → List A
  scoped project rows = select (λ x. in_project project (project_of x)) rows

  -- a page of the rows of a project, `order_by_desc` being what the database does for this query
  unfoldable pub page : ((A → ℕ) → List A → List A) → (A → ℕ) → ℕ → ℕ → Option ℕ → List A → List A
  page order_by_desc created_at offset limit project rows =
      take limit (drop offset (order_by_desc created_at (scoped project rows)))

  -- `query.filter(p)` and the project, `.first()`
  unfoldable pub first_scoped : (A → Bool) → Option ℕ → List A → Option A
  first_scoped p project rows = first (λ x. p x && in_project project (project_of x)) rows

module _ {F D : Type 0} where
  -- the join with the run, whose identifier is unique
  unfoldable pub is_owned : Option ℕ → ℕ → List (EvaluationRun F D) → Bool
  is_owned none run_id runs = true
  is_owned (some p) run_id runs =
      elim (first_scoped (λ r. r.project_id) (λ r. r.id == run_id) (some p) runs) [
        | none ↦ false
        | some r ↦ true
      ]

module _ {F D R : Type 0} where
  unfoldable pub get_run : ℕ → Option ℕ → Exec F D R (Option (EvaluationRun F D))
  get_run id project =
      query λ db. first_scoped (λ r. r.project_id) (λ r. r.id == id) project db.evaluation_runs

  unfoldable pub list_runs :
      ((EvaluationRun F D → ℕ) → List (EvaluationRun F D) → List (EvaluationRun F D))
      → ℕ
      → ℕ
      → Option ℕ
      → Exec F D R (List (EvaluationRun F D))
  list_runs order_by_desc offset limit project = query λ db.
      page (λ r. r.project_id) order_by_desc (λ r. r.created_at) offset limit project
        db.evaluation_runs

  unfoldable pub count_runs : Option ℕ → Exec F D R ℕ
  count_runs project = query λ db. length (scoped (λ r. r.project_id) project db.evaluation_runs)

  unfoldable pub list_jobs :
      ((EvaluationJob F → ℕ) → List (EvaluationJob F) → List (EvaluationJob F))
      → ℕ
      → ℕ
      → Option ℕ
      → Exec F D R (List (EvaluationJob F))
  list_jobs order_by_desc offset limit project = query λ db.
      page (λ j. j.project_id) order_by_desc (λ j. j.created_at) offset limit project
        db.evaluation_jobs

  unfoldable pub count_jobs : Option ℕ → Exec F D R ℕ
  count_jobs project = query λ db. length (scoped (λ j. j.project_id) project db.evaluation_jobs)

  unfoldable pub get_metric_results : ℕ → Option ℕ → Exec F D R (List (MetricResultRecord F D))
  get_metric_results run_id project = query λ db.
      select (λ m. (m.run_id == run_id) && is_owned project run_id db.evaluation_runs)
        db.metric_results

  unfoldable pub get_baseline : ℕ → Option ℕ → Exec F D R (Option EvaluationBaseline)
  get_baseline id project =
      query λ db. first_scoped (λ b. b.project_id) (λ b. b.id == id) project db.evaluation_baselines

  unfoldable pub get_baseline_by_name : String → Option ℕ → Exec F D R (Option EvaluationBaseline)
  get_baseline_by_name name project =
      query
        λ db. first_scoped (λ b. b.project_id) (λ b. b.name == name) project db.evaluation_baselines

  unfoldable pub list_baselines : Option ℕ → Exec F D R (List EvaluationBaseline)
  list_baselines project = query λ db.
      newest_first (λ b. b.created_at) (scoped (λ b. b.project_id) project db.evaluation_baselines)

  unfoldable pub get_quality_gate : ℕ → Option ℕ → Exec F D R (Option (QualityGate F))
  get_quality_gate id project =
      query λ db. first_scoped (λ g. g.project_id) (λ g. g.id == id) project db.quality_gates

  unfoldable pub get_quality_gate_by_name : String → Option ℕ → Exec F D R (Option (QualityGate F))
  get_quality_gate_by_name name project =
      query λ db. first_scoped (λ g. g.project_id) (λ g. g.name == name) project db.quality_gates

  unfoldable pub list_quality_gates : Option ℕ → Exec F D R (List (QualityGate F))
  list_quality_gates project =
      query λ db. scoped (λ g. g.project_id) project (select (λ g. g.enabled) db.quality_gates)

module _ {F D R V : Type 0} (b : Backend F D R V) where
  -- the row is marked and the baseline is inserted, in one transaction
  unfoldable pub insert_baseline : ℕ → String → String → Option ℕ → Exec F D R EvaluationBaseline
  insert_baseline run_id name description project = do
    id ← gets (λ w. b.uuid4 w.view)
    created ← now
    let baseline : EvaluationBaseline = record {
      id = id;
      created_at = created;
      project_id = project;
      name = name;
      description = description;
      run_id = run_id;
    }
    change_view (λ db. record db {
      evaluation_runs =
          update (λ r. r.id == run_id) (λ r. record r { is_baseline = true }) db.evaluation_runs;
      evaluation_baselines = db.evaluation_baselines ++ baseline ∷ [];
    })
    commit b
    pure baseline

  -- `project_id is not None and run.project_id != project_id` is an error, as is a run that is missing
  unfoldable pub create_baseline : ℕ → String → String → Option ℕ → Exec F D R EvaluationBaseline
  create_baseline run_id name description project =
      query (λ db. first (λ r. r.id == run_id) db.evaluation_runs) >>= λ found. elim found [
        | none ↦ raise value_error
        | some run ↦
            if in_project project run.project_id
            then insert_baseline run_id name description project
            else raise value_error
      ]

module _ {F D R V : Type 0} ⦃f : Float F⦄ (b : Backend F D R V) where
  -- `thresholds or DEFAULT_THRESHOLDS`
  unfoldable pub thresholds_or_default : Option (Dict (Threshold F)) → Dict (Threshold F)
  thresholds_or_default none = default_thresholds
  thresholds_or_default (some []) = default_thresholds
  thresholds_or_default (some (t ∷ ts)) = t ∷ ts

  unfoldable pub create_quality_gate :
      String → Option (Dict (Threshold F)) → Option ℕ → Exec F D R (QualityGate F)
  create_quality_gate name thresholds project = do
    id ← gets (λ w. b.uuid4 w.view)
    created ← now
    let gate : QualityGate F = record {
      id = id;
      created_at = created;
      project_id = project;
      name = name;
      thresholds = thresholds_or_default thresholds;
      enabled = true;
    }
    change_view (λ db. record db { quality_gates = db.quality_gates ++ gate ∷ [] })
    commit b
    pure gate
