-- ===== src/Routes/JobGate/Measured.antt =====
-- Which checks the quality gate of a job makes.
use llm_evaluation_pipeline.Prelude.{
  ℕ, ◌≡◌, refl, sym, subst, ap, ◌∙◌, ◌⊎◌, String, Bool, true, false, Option, none, some, List, [],
  ◌∷◌, if◌then◌else◌, ◌==◌, text_comparable, arith,
}
use text.Mathlib.TextEquality.{eq_iff}
use llm_evaluation_pipeline.Dict.{Dict, lookup}
use llm_evaluation_pipeline.Number.{Float, one_float}
use llm_evaluation_pipeline.Metric.{Direction, higher_is_better, lower_is_better}
use llm_evaluation_pipeline.Models.{Project, EvaluationJob, BatchResult}
use llm_evaluation_pipeline.Gate.{
  Threshold, Check, GateResult, check_metric, make_check, extract_metric_value, extract_indirect,
  find_score_in, add_check, run_checks, evaluate_gate,
}
use llm_evaluation_pipeline.Gate.Checks.{lookup-add_check}
use llm_evaluation_pipeline.Gate.Outcome.{check_metric-cases}
use llm_evaluation_pipeline.App.{Exec, Backend, World, ok}
use llm_evaluation_pipeline.App.Hoare.{
  Outcome, Returns, Returns-pure, Returns-raise, Returns-if, Returns-then,
}
use llm_evaluation_pipeline.Routes.JobGate.{
  Averages, avg_results, no_result, completed_runs, gate_runs, gate_batch, gate_job,
  get_job_quality_gate, is_completed,
}

module _ {F : Type 0} ⦃f : Float F⦄ where
  -- a metric of the runs' own columns, or the unsupported fraction at 1.0 - 1.0
  abbrev pub IsMeasured : String → F → Type 0
  IsMeasured name v =
      (name ≡ "relevance")
      ⊎ (name ≡ "latency_ms")
      ⊎ (name ≡ "estimated_cost")
      ⊎ ((name ≡ "hallucination_fraction_unsupported") × (v ≡ f.sub one_float one_float))

  extract-IsMeasured :
      (name : String) (a : Averages F) (v : F)
      → extract_metric_value name (avg_results a) ≡ some v
      → IsMeasured name v
  unfolding extract_metric_value extract_indirect avg_results lookup find_score_in
  extract-IsMeasured name a v e = ground (
    arith,
    eq_iff "relevance" name,
    eq_iff "latency_ms" name,
    eq_iff "estimated_cost" name,
    eq_iff name "hallucination_fraction_unsupported",
  )

  AreMeasured : Dict (Check F) → Type 0
  AreMeasured checks =
      (name : String) (c : Check F) → lookup name checks ≡ some c → IsMeasured name c.value

  make_check-value : (d : Direction) (t : Threshold F) (v : F) → (make_check d t v).value ≡ v
  unfolding make_check
  make_check-value higher_is_better t v = refl
  make_check-value lower_is_better t v = refl

  check_metric-IsMeasured :
      (name : String) (t : Threshold F) (a : Averages F) (c : Check F)
      → check_metric name t (avg_results a) ≡ some c
      → IsMeasured name c.value
  check_metric-IsMeasured name t a c e =
      let (d, v, _, found, made) = check_metric-cases name t (avg_results a) c e in
      subst (λ x. IsMeasured name x) (sym (ap (λ x. x.value) made ∙ make_check-value d t v))
        (extract-IsMeasured name a v found)

  add_check-AreMeasured :
      (name : String) (o : Option (Check F)) (checks : Dict (Check F))
      → ((c : Check F) → o ≡ some c → IsMeasured name c.value)
      → AreMeasured checks
      → AreMeasured (add_check name o checks)
  unfolding AreMeasured
  add_check-AreMeasured name o checks new old k c e =
      go (name == k) refl o refl (sym (lookup-add_check k name o checks) ∙ e)
    where
      go :
          (same : Bool)
          → (name == k) ≡ same
          → (p : Option (Check F)) → o ≡ p
          → (if same
              then elim p as (λ _. Option (Check F)) [ none ↦ lookup k checks | some c' ↦ some c' ]
              else lookup k checks)
            ≡ some c
          → IsMeasured k c.value
      go false n p q h = old k c h
      go true n none q h = old k c h
      go true n (some c') q h =
          subst (λ x. IsMeasured x c.value) ((eq_iff name k).0 n) (new c (q ∙ h))

  run_checks-AreMeasured :
      (ts : Dict (Threshold F)) (a : Averages F) (checks : Dict (Check F))
      → AreMeasured checks
      → AreMeasured (run_checks ts (avg_results a) checks)
  unfolding run_checks
  run_checks-AreMeasured [] a checks h = h
  run_checks-AreMeasured ((name, t) ∷ ts) a checks h =
      run_checks-AreMeasured ts a _
        (add_check-AreMeasured name _ checks (check_metric-IsMeasured name t a) h)

  no_checks-AreMeasured : (checks : Dict (Check F)) → checks ≡ [] → AreMeasured checks
  unfolding AreMeasured lookup
  no_checks-AreMeasured checks h name c e = ground arith

module _ {F D R V : Type 0} ⦃f : Float F⦄ (b : Backend F D R V)
    (average : List ℕ → Exec F D R (Averages F)) where
  gate_runs-AreMeasured :
      (ts : Dict (Threshold F)) (ids : List ℕ)
      → Returns (gate_runs b average ts ids) (λ r w. AreMeasured r.checks)
  unfolding gate_runs no_result evaluate_gate
  gate_runs-AreMeasured ts [] = Returns-pure _ _ λ w. no_checks-AreMeasured [] refl
  gate_runs-AreMeasured ts (id ∷ ids) =
      Returns-then _ _ _ λ row.
        Returns-pure _ _ λ w. run_checks-AreMeasured ts row [] (no_checks-AreMeasured [] refl)

  gate_batch-AreMeasured :
      (ts : Dict (Threshold F)) (results : Option (List BatchResult))
      → Returns (gate_batch b average ts results) (λ r w. AreMeasured r.checks)
  unfolding gate_batch no_result
  gate_batch-AreMeasured ts none = Returns-pure _ _ λ w. no_checks-AreMeasured [] refl
  gate_batch-AreMeasured ts (some results) = gate_runs-AreMeasured ts (completed_runs results)

  gate_job-AreMeasured :
      (job : EvaluationJob F) (gate : Option ℕ)
      → Returns (gate_job b average job gate) (λ r w. AreMeasured r.checks)
  unfolding gate_job
  gate_job-AreMeasured job none = Returns-raise _ _
  gate_job-AreMeasured job (some id) =
      Returns-then _ _ _
        λ found. Returns-then _ _ _ λ gate. gate_batch-AreMeasured gate.thresholds job.batch_results

  get_job_quality_gate-AreMeasured :
      (id : ℕ) (project : Project)
      → Returns (get_job_quality_gate b average id project) (λ r w. AreMeasured r.checks)
  unfolding get_job_quality_gate
  get_job_quality_gate-AreMeasured id project = Returns-then _ _ _ λ found.
      Returns-then _ _ _ λ job.
        Returns-if (is_completed job.status) _ _ _ (gate_job-AreMeasured job job.quality_gate_id)
          (Returns-raise _ _)

  -- Where the quality gate of a job is answered, every check of the answer is of relevance,
  -- latency_ms or estimated_cost, or of hallucination_fraction_unsupported, and the last is made at
  -- the value 1.0 - 1.0, whatever the runs of the job say. So a threshold of the gate on any other
  -- metric is not checked.
  pub get_job_quality_gate-IsMeasured :
      (id : ℕ) (project : Project) (r : GateResult F) (w v : World F D R) (name : String)
      (c : Check F)
      → get_job_quality_gate b average id project w ≡ (ok r, v)
      → lookup name r.checks ≡ some c
      → IsMeasured name c.value
  unfolding AreMeasured
  get_job_quality_gate-IsMeasured id project r w v name c e =
      subst (λ o. Outcome (λ a u. AreMeasured a.checks) (λ u. Unit) o) e
        ((get_job_quality_gate-AreMeasured id project).value w) name c
