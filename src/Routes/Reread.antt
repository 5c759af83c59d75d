-- ===== src/Routes/Reread.antt =====
-- The answer of app/api/routes/jobs.py to a cancellation reads the job again, and commits nothing.
use llm_evaluation_pipeline.Prelude.{
  ℕ, ◌≡◌, refl, sym, subst, ◌∙◌, Bool, Option, none, some, List, [], ◌∷◌, ◌&&◌, number_comparable,
  first, arith,
}
use llm_evaluation_pipeline.Models.{EvaluationJob, Database}
use llm_evaluation_pipeline.App.{
  Exec, Backend, World, Result, ok, raised, pure, raise, ◌>>=◌, json_error, attribute_error,
}
use llm_evaluation_pipeline.App.Hoare.{Outcome, Outcome-bind, query-Outcome}
use llm_evaluation_pipeline.App.Keeps.{
  Keeps, Keeps-pure, Keeps-raise, Keeps-query, Keeps-ask, Keeps-except, Keeps-bind,
}
use llm_evaluation_pipeline.Jobs.{
  has_id, in_project, get_job, overlay, safe_redis_call, get_job_state, get_job_progress,
  load_state, load_progress,
}
use llm_evaluation_pipeline.Redis.{StateEntry, ProgressEntry}
use llm_evaluation_pipeline.Routes.Jobs.{JobResponse, refetched}

unpicked :
    {A : Type 0} (p q : A → Bool) (xs : List A)
    → first p xs ≡ none
    → first (λ x. p x && q x) xs ≡ none
unpicked p q [] h = refl
unpicked p q (x ∷ xs) h = ground (arith, unpicked p q xs)

module _ {F D R : Type 0} where
  pub Keeps-Outcome :
      {A : Type 0} (m : Exec F D R A) (P : Database F D → Type 0) (v : World F D R)
      → Keeps m
      → P v.stored
      → Outcome (λ a u. P u.stored) (λ u. Unit) (m v)
  Keeps-Outcome {A} m P v quiet h = go (m v) (quiet.same v)
    where
      go :
          (o : Result A × World F D R)
          → o.1.stored ≡ v.stored
          → Outcome (λ a u. P u.stored) (λ u. Unit) o
      go (ok a, u) e = subst P (sym e) h
      go (raised x, u) e = tt

module _ {F D R V : Type 0} (b : Backend F D R V) where
  abbrev Quiet : {A : Type 0} → Exec F D R A → Type 0
  Quiet m = Keeps m

  load_state-Keeps : (o : Option V) → Quiet (load_state b o)
  unfolding load_state
  load_state-Keeps none = Keeps-pure none
  load_state-Keeps (some raw) = go (b.json.loads_state raw)
    where
      go :
          (e : Option StateEntry)
          → Quiet (elim e as (λ _. Exec F D R (Option StateEntry)) [
            | none ↦ raise json_error
            | some e ↦ pure (some e)
          ])
      go none = Keeps-raise json_error
      go (some e) = Keeps-pure (some e)

  load_progress-Keeps : (o : Option V) → Quiet (load_progress b o)
  unfolding load_progress
  load_progress-Keeps none = Keeps-pure none
  load_progress-Keeps (some raw) = go (b.json.loads_progress raw)
    where
      go :
          (e : Option ProgressEntry)
          → Quiet (elim e as (λ _. Exec F D R (Option ProgressEntry)) [
            | none ↦ raise json_error
            | some e ↦ pure (some e)
          ])
      go none = Keeps-raise json_error
      go (some e) = Keeps-pure (some e)

  overlay-Keeps : (found : Option (EvaluationJob F)) → Quiet (overlay b found)
  unfolding overlay safe_redis_call get_job_state get_job_progress
  overlay-Keeps none = Keeps-pure none
  overlay-Keeps (some job) =
      Keeps-bind _ _
        (Keeps-except _ _ (Keeps-bind _ _ (Keeps-ask _) (load_state-Keeps)) λ e. Keeps-pure none)
        λ state.
          Keeps-bind _ _
            (Keeps-except _ _ (Keeps-bind _ _ (Keeps-ask _) (load_progress-Keeps))
              λ e. Keeps-pure none)
            λ progress. Keeps-bind _ _ (record { same = λ w. refl }) λ _. Keeps-pure _

  -- the job is read again, and shown
  abbrev pub show_again : ℕ → Exec F D R JobResponse
  show_again id = get_job b id none >>= refetched b

  pub show_again-Keeps : (id : ℕ) → Quiet (show_again id)
  unfolding get_job refetched
  show_again-Keeps id = Keeps-bind _ _ (Keeps-bind _ _ (Keeps-query _) overlay-Keeps) λ o. go o
    where
      go : (o : Option (EvaluationJob F)) → Quiet (refetched b o)
      go none = Keeps-raise attribute_error
      go (some job) = Keeps-pure _

  pub show_again-missing :
      (id : ℕ) (S : JobResponse → World F D R → Type 0) (v : World F D R)
      → first (has_id id) v.view.evaluation_jobs ≡ none
      → Outcome S (λ u. Unit) (show_again id v)
  unfolding get_job overlay refetched
  show_again-missing id S v e =
      Outcome-bind (λ o u. o ≡ none) S (λ u. Unit) (get_job b id none) (refetched b) v
        (Outcome-bind _ (λ o u. o ≡ none) (λ u. Unit) _ (overlay b) v
          (query-Outcome
            (λ db. first (λ j. has_id id j && in_project none j.project_id) db.evaluation_jobs) v)
          λ found u h. missing found u (h.0 ∙ unpicked (has_id id) _ v.view.evaluation_jobs e))
        λ o u h. raises o u h
    where
      missing :
          (found : Option (EvaluationJob F)) (u : World F D R)
          → found ≡ none
          → Outcome (λ o u. o ≡ none) (λ u. Unit) (overlay b found u)
      missing found u h =
          subst (λ f. Outcome (λ o u. o ≡ none) (λ u. Unit) (overlay b f u)) (sym h) refl

      raises :
          (o : Option (EvaluationJob F)) (u : World F D R)
          → o ≡ none
          → Outcome S (λ u. Unit) (refetched b o u)
      raises o u h = subst (λ f. Outcome S (λ u. Unit) (refetched b f u)) (sym h) tt
