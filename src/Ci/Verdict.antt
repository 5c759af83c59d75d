-- ===== src/Ci/Verdict.antt =====
-- The exit code of scripts/evaluate_ci.py.
use llm_evaluation_pipeline.Prelude.{
  ◌≡◌, refl, sym, ap, ◌∙◌, String, Bool, true, false, Option, none, some, List, [], ◌∷◌, ◌&&◌, All,
  ◌==◌, text_comparable, if◌then◌else◌,
}
use llm_evaluation_pipeline.Dict.{Dict, lookup}
use llm_evaluation_pipeline.Number.{Float}
use llm_evaluation_pipeline.Metric.{MetricResult, is_error}
use llm_evaluation_pipeline.Composite.{result_map}
use llm_evaluation_pipeline.Composite.Partition.{last_result, lookup-add_results}
use llm_evaluation_pipeline.App.{Result, ok, raised}
use llm_evaluation_pipeline.Evaluators.{Sample}
use llm_evaluation_pipeline.Ci.{
  CiItem, CiThreshold, CiTally, Dataset, sample_of, meets, add_check, check_metric, check_metrics,
  check_results, check_items, main, or_default,
}

and_true : (b : Bool) → (b && true) ≡ b
and_true true = refl
and_true false = refl

and_false : (b : Bool) → (b && false) ≡ false
and_false true = refl
and_false false = refl

and_assoc : (a b c : Bool) → ((a && b) && c) ≡ (a && (b && c))
and_assoc true b c = refl
and_assoc false b c = refl

module _ {F D : Type 0} ⦃f : Float F⦄ where
  -- the last result of the metric, if there is one and it is no error, meets the threshold
  abbrev pub holds : List (MetricResult F D) → String → CiThreshold F → Bool
  holds results name t = elim (last_result name results) [
    | none ↦ true
    | some r ↦ if is_error r.error then true else meets t r.score
  ]

  -- every threshold holds of the results
  unfoldable pub all_hold : List (MetricResult F D) → Dict (CiThreshold F) → Bool
  all_hold results [] = true
  all_hold results ((name, t) ∷ ts) = holds results name t && all_hold results ts

  -- an item's evaluation returned, and every threshold holds of its results
  unfoldable pub is_clean : Dict (CiThreshold F) → Result (List (MetricResult F D)) → Bool
  is_clean ts (raised e) = false
  is_clean ts (ok results) = all_hold results ts

  check_metric-all_passed :
      (results : List (MetricResult F D)) (name : String) (t : CiThreshold F) (tally : CiTally F)
      → (check_metric (result_map results) name t tally).all_passed
        ≡ (tally.all_passed && holds results name t)
  unfolding check_metric add_check lookup
  check_metric-all_passed results name t tally =
      go (lookup name (result_map results)) (last_result name results)
        (lookup-add_results name results [])
    where
      go :
          (found o : Option (MetricResult F D))
          → found ≡ elim o as (λ _. Option (MetricResult F D)) [ none ↦ none | some r ↦ some r ]
          → (elim found as (λ _. CiTally F) [
            | none ↦ tally
            | some r ↦ if is_error r.error then tally else add_check name t r tally
          ]).all_passed
            ≡ (tally.all_passed && elim o as (λ _. Bool) [
              | none ↦ true
              | some r ↦ if is_error r.error then true else meets t r.score
            ])
      go found none e = rw e (sym (and_true tally.all_passed))
      go found (some r) e = rw e (either (is_error r.error))
        where
          either :
              (c : Bool)
              → (if c then tally else add_check name t r tally).all_passed
                ≡ (tally.all_passed && (if c then true else meets t r.score))
          either true = sym (and_true tally.all_passed)
          either false = refl

  check_metrics-all_passed :
      (results : List (MetricResult F D)) (ts : Dict (CiThreshold F)) (tally : CiTally F)
      → (check_metrics (result_map results) ts tally).all_passed
        ≡ (tally.all_passed && all_hold results ts)
  unfolding check_metrics all_hold
  check_metrics-all_passed results [] tally = sym (and_true tally.all_passed)
  check_metrics-all_passed results ((name, t) ∷ ts) tally =
      check_metrics-all_passed results ts (check_metric (result_map results) name t tally)
      ∙ (ap (λ c. c && all_hold results ts) (check_metric-all_passed results name t tally)
          ∙ and_assoc tally.all_passed (holds results name t) (all_hold results ts))

  check_results-all_passed :
      (r : Result (List (MetricResult F D))) (ts : Dict (CiThreshold F)) (tally : CiTally F)
      → (check_results r ts tally).all_passed ≡ (tally.all_passed && is_clean ts r)
  unfolding check_results is_clean
  check_results-all_passed (raised e) ts tally = sym (and_false tally.all_passed)
  check_results-all_passed (ok results) ts tally = check_metrics-all_passed results ts tally

module _ {F D : Type 0} ⦃f : Float F⦄
    (evaluate : String → Sample F → Result (List (MetricResult F D))) where
  -- the evaluations of all items are clean
  unfoldable pub all_clean : String → Dict (CiThreshold F) → List CiItem → Bool
  all_clean profile ts [] = true
  all_clean profile ts (item ∷ items) =
      is_clean ts (evaluate profile (sample_of item)) && all_clean profile ts items

  check_items-all_passed :
      (profile : String) (ts : Dict (CiThreshold F)) (items : List CiItem) (tally : CiTally F)
      → (check_items evaluate profile ts items tally).all_passed
        ≡ (tally.all_passed && all_clean profile ts items)
  unfolding check_items all_clean
  check_items-all_passed profile ts [] tally = sym (and_true tally.all_passed)
  check_items-all_passed profile ts (item ∷ items) tally =
      check_items-all_passed profile ts items
        (check_results (evaluate profile (sample_of item)) ts tally)
      ∙ (ap (λ c. c && all_clean profile ts items)
            (check_results-all_passed (evaluate profile (sample_of item)) ts tally)
          ∙ and_assoc tally.all_passed _ _)

  -- The exit code is 0 if and only if every item's evaluation returns and, for every metric with a
  -- threshold, the last result of that metric, unless there is none or it has an error, meets the
  -- threshold. In every other case, that of a missing dataset included, it is 1.
  pub main-all_clean :
      (d : Dataset F)
      → (main evaluate (some d) ≡ (
          if all_clean (or_default "basic" d.profile) d.quality_thresholds d.items then 0 else 1))
        × (main evaluate none ≡ 1)
  unfolding main
  main-all_clean d = (
    ap (λ c. if c then 0 else 1)
        (check_items-all_passed (or_default "basic" d.profile) d.quality_thresholds d.items _),
    refl,
  )

  -- all results of all items have an error
  abbrev pub AllFail : String → List CiItem → Type 0
  AllFail profile items =
      All
        (λ item.
          (rs : List (MetricResult F D)) × ((evaluate profile (sample_of item) ≡ ok rs)
            × All (λ r. is_error r.error ≡ true) rs))
        items

module _ {F D : Type 0} ⦃f : Float F⦄ where
  abbrev IsFailure : Option (MetricResult F D) → Type 0
  IsFailure none = Unit
  IsFailure (some r) = is_error r.error ≡ true

  last_result-IsFailure :
      (name : String) (rs : List (MetricResult F D))
      → All (λ r. is_error r.error ≡ true) rs
      → IsFailure (last_result name rs)
  unfolding last_result
  last_result-IsFailure name [] h = tt
  last_result-IsFailure name (r ∷ rs) h =
      go (last_result name rs) (last_result-IsFailure name rs h.1) (r.metric == name)
    where
      go :
          (o : Option (MetricResult F D))
          → IsFailure o
          → (c : Bool)
          → IsFailure (elim o as (λ _. Option (MetricResult F D)) [
            | none ↦ if c then some r else none
            | some r' ↦ some r'
          ])
      go (some r') k c = k
      go none k true = h.0
      go none k false = tt

  holds_of_failure :
      (name : String) (t : CiThreshold F) (rs : List (MetricResult F D))
      → All (λ r. is_error r.error ≡ true) rs
      → holds rs name t ≡ true
  holds_of_failure name t rs h = go (last_result name rs) (last_result-IsFailure name rs h)
    where
      go :
          (o : Option (MetricResult F D))
          → IsFailure o
          → elim o as (λ _. Bool) [
            | none ↦ true
            | some r ↦ if is_error r.error then true else meets t r.score
          ]
            ≡ true
      go none k = refl
      go (some r) k = rw k refl

  all_hold_of_failure :
      (ts : Dict (CiThreshold F)) (rs : List (MetricResult F D))
      → All (λ r. is_error r.error ≡ true) rs
      → all_hold rs ts ≡ true
  unfolding all_hold
  all_hold_of_failure [] rs h = refl
  all_hold_of_failure ((name, t) ∷ ts) rs h =
      rw (holds_of_failure name t rs h, all_hold_of_failure ts rs h) refl

module _ {F D : Type 0} ⦃f : Float F⦄
    (evaluate : String → Sample F → Result (List (MetricResult F D))) where
  all_clean_of_failure :
      (profile : String) (ts : Dict (CiThreshold F)) (items : List CiItem)
      → AllFail evaluate profile items
      → all_clean evaluate profile ts items ≡ true
  unfolding all_clean is_clean
  all_clean_of_failure profile ts [] h = refl
  all_clean_of_failure profile ts (item ∷ items) ((rs, (e, k)), h) =
      rw (e, all_hold_of_failure ts rs k, all_clean_of_failure profile ts items h) refl

  -- The gate is open when nothing works: if every evaluator reports an error for every item, the exit
  -- code is 0, whatever the thresholds.
  pub main-AllFail :
      (d : Dataset F)
      → AllFail evaluate (or_default "basic" d.profile) d.items
      → main evaluate (some d) ≡ 0
  main-AllFail d h =
      (main-all_clean evaluate d).0
      ∙ ap (λ c. if c then 0 else 1)
          (all_clean_of_failure (or_default "basic" d.profile) d.quality_thresholds d.items h)
