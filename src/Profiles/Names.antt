-- ===== src/Profiles/Names.antt =====
-- The results of a profile of evaluator/profiles.py, by name.
use llm_evaluation_pipeline.Prelude.{
  ◌≡◌, refl, sym, ◌∙◌, inl, inr, Bool-cases, String, Bool, true, false, Option, none, some, List,
  [], ◌∷◌, ◌++◌, append_nil, map-append, map, ◌&&◌, not, if◌then◌else◌, text_comparable, false≢true,
}
use llm_evaluation_pipeline.Number.{Float}
use llm_evaluation_pipeline.Metric.{MetricResult}
use llm_evaluation_pipeline.App.{Result, ok, raised}
use llm_evaluation_pipeline.Registry.{
  JudgeSettings, JudgeConfig, Evaluator, run_evaluators, run_names, run_judge, run_found, settle,
  mentions, configure, error_result,
}
use llm_evaluation_pipeline.Evaluators.{Sample, Details, no_details}
use llm_evaluation_pipeline.Evaluators.Returned.{Returned}
use llm_evaluation_pipeline.Profiles.{
  Tools, EvalProfile, get_profile, create_evaluator, run_profile, evaluate_with_profile,
}
use llm_evaluation_pipeline.Profiles.Named.{Named}
use llm_evaluation_pipeline.Profiles.Named.Created.{IsNamed, create_evaluator-IsNamed}

abbrev is_found : {A : Type 0} → Option A → Bool
is_found none = false
is_found (some a) = true

module _ {F E : Type 0} ⦃f : Float F⦄ (t : Tools F E) where
  -- `.metric` of each result
  abbrev pub metrics_of : List (MetricResult F (Details F)) → List String
  metrics_of = map λ r. r.metric

  settle_metric :
      (name version : String) (r : Result (MetricResult F (Details F)))
      → Returned (Named name) r
      → (settle (create_evaluator t) no_details t.str t.evaluator_not_found name version r).metric
        ≡ name
  unfolding settle error_result Returned Named
  settle_metric name version (ok m) h = h
  settle_metric name version (raised e) h = refl

  run_found_metric :
      (s : JudgeSettings F) (sample : Sample F) (name : String)
      (e : Option (Evaluator F (Details F) (Sample F)))
      → IsNamed name e
      → (run_found
          (create_evaluator t)
          no_details
          t.str
          t.evaluator_not_found
          s
          sample
          name
          e).metric
        ≡ name
  unfolding run_found error_result
  run_found_metric s sample name none h = refl
  run_found_metric s sample name (some e) h =
      settle_metric name e.version (e.evaluate s sample) (h s sample)

  run_names_metrics :
      (s : JudgeSettings F) (sample : Sample F) (names : List String)
      → metrics_of
          (run_names (create_evaluator t) no_details t.str t.evaluator_not_found s sample names)
        ≡ names
  unfolding run_names
  run_names_metrics s sample [] = refl
  run_names_metrics s sample (name ∷ names) =
      rw
        (
          run_found_metric s sample name (create_evaluator t name)
              (create_evaluator-IsNamed t name),
          run_names_metrics s sample names,
        )
        refl

  -- the names that a profile asks for; the judge comes last
  abbrev pub expected : EvalProfile F → List String
  expected p =
      p.evaluators
      ++ (if p.use_judge && not (mentions "llm_judge" p.evaluators) then "llm_judge" ∷ [] else [])

  run_judge_metrics :
      (s : JudgeSettings F) (sample : Sample F) (config : Option (JudgeConfig F))
      (e : Option (Evaluator F (Details F) (Sample F)))
      → IsNamed "llm_judge" e
      → is_found e ≡ true
      → metrics_of
          (run_judge
            (create_evaluator t)
            no_details
            t.str
            t.evaluator_not_found
            s
            sample
            config
            e).0
        ≡ "llm_judge" ∷ []
  unfolding run_judge
  run_judge_metrics s sample config (some e) h found =
      rw
        (settle_metric "llm_judge" e.version (e.evaluate (configure config s) sample)
          (h (configure config s) sample))
        refl
  run_judge_metrics s sample config none h found = elim (false≢true found) [ ]

  judge_is_found : is_found (create_evaluator t "llm_judge") ≡ true
  unfolding create_evaluator
  judge_is_found = refl

  run_evaluators_metrics :
      (s : JudgeSettings F) (p : EvalProfile F) (sample : Sample F)
      (config : Option (JudgeConfig F))
      → metrics_of
          (run_evaluators
            (create_evaluator t)
            no_details
            t.str
            t.evaluator_not_found
            s
            p.evaluators
            sample
            p.use_judge
            config).0
        ≡ expected p
  unfolding run_evaluators
  run_evaluators_metrics s p sample config =
      elim (Bool-cases (p.use_judge && not (mentions "llm_judge" p.evaluators))) [
        | inl e ↦ rw e (
            map-append _
              (run_names (create_evaluator t) no_details t.str t.evaluator_not_found s sample
                p.evaluators)
              _
            ∙ rw
                (
                  run_names_metrics s sample p.evaluators,
                  run_judge_metrics s sample config (create_evaluator t "llm_judge")
                      (create_evaluator-IsNamed t "llm_judge") judge_is_found,
                )
                refl)
        | inr e ↦ rw e (run_names_metrics s sample p.evaluators ∙ sym (append_nil p.evaluators))
      ]

  -- A profile yields one result for each of its evaluators, in order and under their names, and where it
  -- asks for the judge one more, under "llm_judge"; no evaluator is missing and none reports under
  -- another name, whatever the models answer or raise.
  pub evaluate_with_profile-metrics :
      (s : JudgeSettings F) (name : String) (sample : Sample F) (config : Option (JudgeConfig F))
      (p : EvalProfile F)
      → get_profile name ≡ some p
      → metrics_of (evaluate_with_profile t s name sample config).0 ≡ expected p
  unfolding evaluate_with_profile run_profile
  evaluate_with_profile-metrics s name sample config p found =
      rw found (run_evaluators_metrics s p sample config)
