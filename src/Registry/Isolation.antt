-- ===== src/Registry/Isolation.antt =====
-- One evaluator that fails does not touch the results of the others.
use llm_evaluation_pipeline.Prelude.{
  ◌≡◌, ◌⊎◌, inl, inr, refl, subst, String, Bool, true, false, Option, none, some, List, [], ◌∷◌,
  ◌++◌, append_nil, ◌&&◌, not, if◌then◌else◌,
}
use llm_evaluation_pipeline.Number.{Float, zero_float}
use llm_evaluation_pipeline.Metric.{MetricResult}
use llm_evaluation_pipeline.App.{Exception, Result, ok, raised}
use llm_evaluation_pipeline.Registry.{
  Evaluator, JudgeSettings, JudgeConfig, run_evaluators, run_names, run_found, settle, error_result,
  mentions, run_judge, configure,
}

module _ {F D S : Type 0} ⦃f : Float F⦄ (create_evaluator : String → Option (Evaluator F D S))
    (no_details : D) (str : Exception → String) (not_found : String → String) where
  -- an error of score 0 under the name
  abbrev IsErrorOf : String → String → String → MetricResult F D → Type 0
  IsErrorOf name version message r =
      (r.metric ≡ name)
      × ((r.score ≡ zero_float)
          × ((r.passed ≡ some false)
              × ((r.evaluator_version ≡ version) × (r.error ≡ some message))))

  -- the result of an evaluator: what it returned, or an error with the text of what it raised
  abbrev pub IsSettled : JudgeSettings F → S → String → Evaluator F D S → MetricResult F D → Type 0
  IsSettled s sample name e r =
      (e.evaluate s sample ≡ ok r)
      ⊎ ((x : Exception) × ((e.evaluate s sample ≡ raised x) × IsErrorOf name e.version (str x) r))

  -- the result for a name: of its evaluator, or an error where there is none
  abbrev pub IsResultOf : JudgeSettings F → S → String → MetricResult F D → Type 0
  IsResultOf s sample name r =
      ((e : Evaluator F D S) × ((create_evaluator name ≡ some e) × IsSettled s sample name e r))
      ⊎ ((create_evaluator name ≡ none) × IsErrorOf name "0.0.0" (not_found name) r)

  -- the result of the judge where it is called for and there is one, and nothing else
  abbrev pub IsJudged :
      JudgeSettings F → S → Bool → Option (Evaluator F D S) → List (MetricResult F D) → Type 0
  IsJudged s sample false found rs = rs ≡ []
  IsJudged s sample true none rs = rs ≡ []
  IsJudged s sample true (some judge) rs =
      (r : MetricResult F D) × ((rs ≡ r ∷ []) × IsSettled s sample "llm_judge" judge r)

  -- one result for each name, in order, and then those of `Rest`
  abbrev pub AreResultsOf :
      JudgeSettings F
      → S
      → (List (MetricResult F D) → Type 0)
      → List String
      → List (MetricResult F D)
      → Type 0
  AreResultsOf s sample Rest [] rs = Rest rs
  AreResultsOf s sample Rest (name ∷ names) [] = ⊥
  AreResultsOf s sample Rest (name ∷ names) (r ∷ rs) =
      IsResultOf s sample name r × AreResultsOf s sample Rest names rs

  settle-IsSettled :
      (s : JudgeSettings F) (sample : S) (name : String) (e : Evaluator F D S)
      → IsSettled s sample name e
          (settle create_evaluator no_details str not_found name e.version (e.evaluate s sample))
  unfolding settle error_result
  settle-IsSettled s sample name e = go (e.evaluate s sample) refl
    where
      go :
          (o : Result (MetricResult F D))
          → e.evaluate s sample ≡ o
          → IsSettled s sample name e
              (settle create_evaluator no_details str not_found name e.version o)
      go (ok r) h = inl h
      go (raised x) h = inr (x, (h, (refl, (refl, (refl, (refl, refl))))))

  run_found-IsResultOf :
      (s : JudgeSettings F) (sample : S) (name : String) (found : Option (Evaluator F D S))
      → create_evaluator name ≡ found
      → IsResultOf s sample name
          (run_found create_evaluator no_details str not_found s sample name found)
  unfolding run_found error_result
  run_found-IsResultOf s sample name none e = inr (e, (refl, (refl, (refl, (refl, refl)))))
  run_found-IsResultOf s sample name (some v) e = inl (v, (e, settle-IsSettled s sample name v))

  run_names-AreResultsOf :
      (s : JudgeSettings F) (sample : S) (Rest : List (MetricResult F D) → Type 0)
      (names : List String) (more : List (MetricResult F D))
      → Rest more
      → AreResultsOf s sample Rest names
          (run_names create_evaluator no_details str not_found s sample names ++ more)
  unfolding run_names
  run_names-AreResultsOf s sample Rest [] more h = h
  run_names-AreResultsOf s sample Rest (name ∷ names) more h = (
    run_found-IsResultOf s sample name (create_evaluator name) refl,
    run_names-AreResultsOf s sample Rest names more h,
  )

  run_judge-IsJudged :
      (s : JudgeSettings F) (sample : S) (config : Option (JudgeConfig F))
      (found : Option (Evaluator F D S))
      → IsJudged
          (configure config s)
          sample
          true
          found
          (run_judge create_evaluator no_details str not_found s sample config found).0
  unfolding run_judge
  run_judge-IsJudged s sample config none = refl
  run_judge-IsJudged s sample config (some judge) =
      (_, (refl, settle-IsSettled (configure config s) sample "llm_judge" judge))

  -- Whatever its evaluators raise, `run_evaluators` returns one result for each name, in the order of
  -- the names: what the evaluator of the name returned if it returned, an error of score 0 under the
  -- name with the text of the exception if it raised, and an error if no evaluator has the name. After
  -- them comes the result of the judge, by the same rule and under the settings of the request, if
  -- the judge is asked for, known and not among the names, and nothing else.
  pub run_evaluators-AreResultsOf :
      (s : JudgeSettings F) (names : List String) (sample : S) (use_judge : Bool)
      (config : Option (JudgeConfig F))
      → AreResultsOf s sample
          (IsJudged
            (configure config s)
            sample
            (use_judge && not (mentions "llm_judge" names))
            (create_evaluator "llm_judge"))
          names
          (run_evaluators create_evaluator no_details str not_found s names sample use_judge
            config).0
  unfolding run_evaluators
  run_evaluators-AreResultsOf s names sample use_judge config =
      go (use_judge && not (mentions "llm_judge" names))
    where
      found : Option (Evaluator F D S)
      found = create_evaluator "llm_judge"

      results : List (MetricResult F D)
      results = run_names create_evaluator no_details str not_found s sample names

      judged : List (MetricResult F D) × JudgeSettings F
      judged = run_judge create_evaluator no_details str not_found s sample config found

      outcome : Bool → List (MetricResult F D) × JudgeSettings F
      outcome c = if c then (results ++ judged.0, judged.1) else (results, s)

      go :
          (c : Bool)
          → AreResultsOf s sample (IsJudged (configure config s) sample c found) names (outcome c).0
      go true =
          run_names-AreResultsOf s sample (IsJudged (configure config s) sample true found) names
            judged.0 (run_judge-IsJudged s sample config found)
      go false =
          subst (AreResultsOf s sample (IsJudged (configure config s) sample false found) names)
            (append_nil results)
            (run_names-AreResultsOf s sample (IsJudged (configure config s) sample false found)
              names [] refl)
