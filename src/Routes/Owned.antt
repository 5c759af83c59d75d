-- ===== src/Routes/Owned.antt =====
-- What a project can compare.
use mathlib.Core.List.{Memᴰ}
use llm_evaluation_pipeline.Prelude.{
  ℕ, ◌≡◌, refl, sym, ap, subst, ◌∙◌, String, true, Option, none, some, List, ◌&&◌, ◌==◌,
  number_comparable, arith,
}
use llm_evaluation_pipeline.Number.{Float}
use llm_evaluation_pipeline.Models.{Database, Project, EvaluationRun, EvaluationBaseline}
use llm_evaluation_pipeline.Baseline.{Comparison, detect_regressions}
use llm_evaluation_pipeline.App.{World, ok}
use llm_evaluation_pipeline.App.Rows.{both, first-Mem}
use llm_evaluation_pipeline.App.Hoare.{Outcome, Outcome-bind, query-Outcome}
use llm_evaluation_pipeline.Jobs.{in_project}
use llm_evaluation_pipeline.Store.{first_scoped, get_run, get_baseline}
use llm_evaluation_pipeline.Routes.{or_404}
use llm_evaluation_pipeline.Routes.Runs.{compare_run_to_baseline}

in_project-owner : (p : ℕ) (owner : Option ℕ) → in_project (some p) owner ≡ true → owner ≡ some p
unfolding in_project
in_project-owner p none h = ground arith
in_project-owner p (some o) h = ap some (number_comparable.same_sound o p h)

module _ {A : Type 0} (project_of : A → Option ℕ) (id_of : A → ℕ) where
  -- the row with the identifier, of the project, in the table
  abbrev IsOwn : ℕ → ℕ → List A → A → Type 0
  IsOwn id p rows x = Memᴰ x rows × ((id_of x ≡ id) × (project_of x ≡ some p))

  first_scoped-IsOwn :
      (id p : ℕ) (rows : List A) (x : A)
      → some x ≡ first_scoped project_of (λ x. id_of x == id) (some p) rows
      → IsOwn id p rows x
  unfolding first_scoped
  first_scoped-IsOwn id p rows x e =
      let (m, holds) =
        first-Mem (λ y. (id_of y == id) && in_project (some p) (project_of y)) rows x (sym e) in
      let (same, owned) = both (id_of x == id) (in_project (some p) (project_of x)) holds in
      (m, (number_comparable.same_sound (id_of x) id same, in_project-owner p (project_of x) owned))

-- a comparison of two runs of the project, one of them that of a baseline of the project, all rows
-- of the database
pub record IsOwnComparison {F D : Type 0} ⦃f : Float F⦄ (set_order : List String → List String)
    (run_id baseline_id p : ℕ) (db : Database F D) (c : Comparison F) : Type 0 where
  pub baseline : EvaluationBaseline
  pub reference : EvaluationRun F D
  pub current : EvaluationRun F D
  pub baseline_own :
      IsOwn (λ b. b.project_id) (λ b. b.id) baseline_id p db.evaluation_baselines baseline
  pub reference_own :
      IsOwn (λ r. r.project_id) (λ r. r.id) baseline.run_id p db.evaluation_runs reference
  pub current_own : IsOwn (λ r. r.project_id) (λ r. r.id) run_id p db.evaluation_runs current
  pub result : c ≡ detect_regressions set_order reference current none none none

module _ {F D R A : Type 0} where
  or_404-Outcome :
      (o : Option A) (w : World F D R)
      → Outcome (λ a v. (o ≡ some a) × (v ≡ w)) (λ _. Unit) (or_404 o w)
  unfolding or_404
  or_404-Outcome none w = tt
  or_404-Outcome (some a) w = (refl, refl)

module _ {F D R : Type 0} where
  get_run-Outcome :
      (id p : ℕ) (w : World F D R)
      → Outcome
          (λ o v.
            (o ≡ first_scoped (λ r. r.project_id) (λ r. r.id == id) (some p) w.view.evaluation_runs)
            × (v ≡ w))
          (λ _. Unit)
          (get_run id (some p) w)
  unfolding get_run
  get_run-Outcome id p w = query-Outcome _ w

  get_baseline-Outcome :
      (id p : ℕ) (w : World F D R)
      → Outcome
          (λ o v.
            (o
              ≡ first_scoped
                  (λ r. r.project_id)
                  (λ r. r.id == id)
                  (some p)
                  w.view.evaluation_baselines)
            × (v ≡ w))
          (λ _. Unit)
          (get_baseline id (some p) w)
  unfolding get_baseline
  get_baseline-Outcome id p w = query-Outcome _ w

  -- a row that was looked up in a world that is this one
  looked_up :
      {A : Type 0} (project_of : A → Option ℕ) (id_of : A → ℕ) (table : Database F D → List A)
      (id p : ℕ) (o : Option A) (a : A) (u w : World F D R)
      → o ≡ first_scoped project_of (λ r. id_of r == id) (some p) (table u.view)
      → u ≡ w
      → o ≡ some a
      → IsOwn project_of id_of id p (table w.view) a
  looked_up project_of id_of table id p o a u w e same found =
      first_scoped-IsOwn project_of id_of id p (table w.view) a (
        sym found
        ∙ (e ∙ ap (λ z. first_scoped project_of (λ r. id_of r == id) (some p) (table z.view)) same))

module _ {F D R : Type 0} ⦃f : Float F⦄ (set_order : List String → List String) where
  compare-Outcome :
      (run_id baseline_id : ℕ) (project : Project) (w : World F D R)
      → Outcome
          (λ c _. IsOwnComparison set_order run_id baseline_id project.id w.view c)
          (λ _. Unit)
          (compare_run_to_baseline set_order run_id baseline_id project w)
  unfolding compare_run_to_baseline
  compare-Outcome run_id baseline_id project w =
      Outcome-bind _ _ (λ _. Unit) _ _ w (get_baseline-Outcome baseline_id project.id w)
        λ o1 w1 h1.
          Outcome-bind _ _ (λ _. Unit) _ _ w1 (or_404-Outcome o1 w1)
            λ baseline w2 h2.
              Outcome-bind _ _ (λ _. Unit) _ _ w2 (get_run-Outcome baseline.run_id project.id w2)
                λ o3 w3 h3.
                  Outcome-bind _ _ (λ _. Unit) _ _ w3 (get_run-Outcome run_id project.id w3)
                    λ o4 w4 h4.
                      Outcome-bind _ _ (λ _. Unit) _ _ w4 (or_404-Outcome o3 w4)
                        λ reference w5 h5.
                          Outcome-bind _ _ (λ _. Unit) _ _ w5 (or_404-Outcome o4 w5)
                            λ current w6 h6. record {
                              baseline = baseline;
                              reference = reference;
                              current = current;
                              baseline_own =
                                  looked_up (λ b. b.project_id) (λ b. b.id)
                                    (λ d. d.evaluation_baselines) baseline_id project.id o1 baseline
                                    w w h1.0 refl h2.0;
                              reference_own =
                                  looked_up (λ r. r.project_id) (λ r. r.id) (λ d. d.evaluation_runs)
                                    baseline.run_id project.id o3 reference w2 w h3.0 (h2.1 ∙ h1.1)
                                    h5.0;
                              current_own =
                                  looked_up (λ r. r.project_id) (λ r. r.id) (λ d. d.evaluation_runs)
                                    run_id project.id o4 current w3 w h4.0 (h3.1 ∙ (h2.1 ∙ h1.1))
                                    h6.0;
                              result = refl;
                            }

  -- Where a comparison is returned, it is that of the run asked for with the run of the baseline asked
  -- for, all three rows of the database that belong to the project of the request; the metric results
  -- of the two runs take no part in it.
  pub compare_run_to_baseline-IsOwnComparison :
      (run_id baseline_id : ℕ) (project : Project) (c : Comparison F) (w v : World F D R)
      → compare_run_to_baseline set_order run_id baseline_id project w ≡ (ok c, v)
      → IsOwnComparison set_order run_id baseline_id project.id w.view c
  compare_run_to_baseline-IsOwnComparison run_id baseline_id project c w v e =
      subst
        (Outcome (λ c _. IsOwnComparison set_order run_id baseline_id project.id w.view c)
          (λ _. Unit))
        e (compare-Outcome run_id baseline_id project w)
