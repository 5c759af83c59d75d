-- ===== src/Baseline/Drops.antt =====
-- What `detect_regressions` lists as improvements.
use llm_evaluation_pipeline.Prelude.{
  String, ◌≡◌, refl, true, false, Option, none, some, List, [], ◌∷◌, ◌++◌, Bool, Bool-cases, inl,
  inr,
}
use mathlib.Core.List.{append_assoc, append-nil}
use llm_evaluation_pipeline.Dict.{Dict, lookup}
use llm_evaluation_pipeline.Number.{Float, IsFloat, zero_float, neg}
use llm_evaluation_pipeline.Metric.{higher_is_better, metric_direction}
use llm_evaluation_pipeline.Models.{EvaluationRun}
use llm_evaluation_pipeline.Baseline.{
  RegressionEntry, Findings, direction_of, tolerance_of, is_regression, regresses, classify,
  compare_legacy, legacy_entry, legacy_loop, legacy_comparisons, detect_regressions,
  advanced_findings, fraction_unsupported,
}

relevance_direction : direction_of "relevance" ≡ higher_is_better
unfolding direction_of lookup metric_direction
relevance_direction = refl

module _ {F : Type 0} ⦃f : Float F⦄ where
  -- the loop only appends to the improvements
  abbrev Extends : Findings F → Findings F → Type 0
  Extends acc acc' =
      (more : List (RegressionEntry F)) × (acc'.improvements ≡ acc.improvements ++ more)

  classify-Extends :
      (r : Bool) (change : F) (e : RegressionEntry F) (acc : Findings F)
      → Extends acc (classify r change e acc)
  unfolding classify
  classify-Extends true change e acc = ([], rw append-nil)
  classify-Extends false change e acc = elim (Bool-cases (f.eq change zero_float)) [
    | inl z ↦ rw z ([], rw append-nil)
    | inr z ↦ rw z (e ∷ [], refl)
  ]

  compare-Extends :
      (tol : Dict F) (metric : String) (b c : Option F) (acc : Findings F)
      → Extends acc (compare_legacy tol metric b c acc)
  unfolding compare_legacy
  compare-Extends tol metric (some b) (some c) acc = classify-Extends _ _ _ acc
  compare-Extends tol metric (some b) none acc = ([], rw append-nil)
  compare-Extends tol metric none c acc = ([], rw append-nil)

  legacy_loop-Extends :
      (tol : Dict F) (d : Dict (Option F × Option F)) (acc : Findings F)
      → Extends acc (legacy_loop tol d acc)
  unfolding legacy_loop
  legacy_loop-Extends tol [] acc = ([], rw append-nil)
  legacy_loop-Extends tol ((metric, (b, c)) ∷ rest) acc =
      let (more, e) = compare-Extends tol metric b c acc in
      let (later, e') = legacy_loop-Extends tol rest (compare_legacy tol metric b c acc) in
      (more ++ later, rw (e', e, append_assoc))

module _ {F : Type 0} ⦃f : Float F⦄ (laws : IsFloat F) where
  drop_round :
      (tol : Dict F) (x y : F)
      → f.lt (f.sub y x) zero_float ≡ true
      → f.lt (f.sub y x) (neg (tolerance_of tol "relevance")) ≡ false
      → compare_legacy tol "relevance"
          (some x)
          (some y)
          (record { regressions = []; improvements = [] })
        ≡ record { regressions = []; improvements = legacy_entry tol "relevance" x y ∷ [] }
  unfolding compare_legacy regresses is_regression classify
  drop_round tol x y drop within = rw (relevance_direction, within, laws.not_eq_of_lt _ _ drop)

module _ {F D : Type 0} ⦃f : Float F⦄ (laws : IsFloat F) where
  -- A fall in relevance that the tolerance allows stands first among the improvements, so
  -- `improvements` holds more than what became better.
  pub relevance_drop_is_improvement :
      (set_order : List String → List String) (baseline_run current_run : EvaluationRun F D)
      (tol : Dict F) (x y : F)
      → baseline_run.relevance ≡ some x
      → current_run.relevance ≡ some y
      → f.lt (f.sub y x) zero_float ≡ true
      → f.lt (f.sub y x) (neg (tolerance_of tol "relevance")) ≡ false
      → (more : List (RegressionEntry F)) × ((detect_regressions set_order baseline_run current_run
            (some tol)
            none
            none).improvements
          ≡ legacy_entry tol "relevance" x y ∷ more)
  unfolding detect_regressions advanced_findings legacy_loop legacy_comparisons
  relevance_drop_is_improvement set_order baseline_run current_run tol x y ex ey drop within =
      let start : Findings F = record { regressions = []; improvements = [] } in
      let rest : Dict (Option F × Option F) =
        ((
          "hallucination_fraction_unsupported",
          (
            some (fraction_unsupported baseline_run.hallucination),
            some (fraction_unsupported current_run.hallucination),
          ),
        )
          ∷ ("latency_ms", (baseline_run.latency_ms, current_run.latency_ms))
          ∷ ("estimated_cost", (baseline_run.estimated_cost, current_run.estimated_cost))
          ∷ []) in
      let (more, e) =
        legacy_loop-Extends tol rest
          (record start { improvements = legacy_entry tol "relevance" x y ∷ [] }) in
      (more, rw (first_round) e)
    where
      first_round :
          compare_legacy tol "relevance" baseline_run.relevance current_run.relevance
            (record { regressions = []; improvements = [] })
          ≡ record { regressions = []; improvements = legacy_entry tol "relevance" x y ∷ [] }
      first_round = rw (ex, ey) (drop_round laws tol x y drop within)
