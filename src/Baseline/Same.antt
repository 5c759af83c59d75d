-- ===== src/Baseline/Same.antt =====
-- A run compared with itself.
use llm_evaluation_pipeline.Prelude.{
  String, ◌≡◌, refl, ◌∙◌, false, Option, none, some, List, [], ◌∷◌, ◌++◌, arith, All, Option-cases,
  inl, inr,
}
use llm_evaluation_pipeline.Dict.{
  Dict, lookup, insert, keys, values, All-insert, lookup-All, All-values,
}
use llm_evaluation_pipeline.Number.{Float, IsFloat, IsFinite, zero_float, neg}
use llm_evaluation_pipeline.Metric.{Direction, higher_is_better, lower_is_better}
use llm_evaluation_pipeline.Models.{EvaluationRun, MetricResultRecord}
use llm_evaluation_pipeline.Baseline.{
  RegressionEntry, Findings, no_regression, direction_of, tolerance_of, is_regression, regresses,
  classify, compare_legacy, legacy_loop, legacy_comparisons, metric_map, comparable, compare_metric,
  metric_loop, detect_regressions, default_tolerances, advanced_findings, fraction_unsupported,
}

module _ {F : Type 0} ⦃f : Float F⦄ (laws : IsFloat F) where
  -- a change of nothing is tolerated whatever the direction
  no_change_tolerated :
      (d : Direction) (x tolerance : F)
      → IsFinite x
      → f.lt tolerance zero_float ≡ false
      → is_regression d (f.sub x x) tolerance ≡ false
  unfolding is_regression
  no_change_tolerated higher_is_better x tolerance fin t =
      laws.lt_of_eq _ _ (neg tolerance) fin ∙ laws.zero_lt_neg tolerance ∙ t
  no_change_tolerated lower_is_better x tolerance fin t = laws.lt_of_eq_right _ _ tolerance fin ∙ t

  -- no tolerance is negative
  abbrev pub AreTolerances : Dict F → Type 0
  AreTolerances tol = (metric : String) → f.lt (tolerance_of tol metric) zero_float ≡ false

  classify_same :
      (tol : Dict F) (metric : String) (x : F) (e : RegressionEntry F) (acc : Findings F)
      → AreTolerances tol
      → IsFinite x
      → classify (regresses tol metric x x) (f.sub x x) e acc ≡ acc
  unfolding classify regresses
  classify_same tol metric x e acc t fin =
      rw (no_change_tolerated (direction_of metric) x (tolerance_of tol metric) fin (t metric), fin)

  -- a value that is there is finite
  abbrev pub IsFiniteIfAny : Option F → Type 0
  IsFiniteIfAny none = Unit
  IsFiniteIfAny (some x) = IsFinite x

  module _ (tol : Dict F) (are_tolerances : AreTolerances tol) where
    compare_legacy_same :
        (metric : String) (x : Option F) (acc : Findings F)
        → IsFiniteIfAny x
        → compare_legacy tol metric x x acc ≡ acc
    unfolding compare_legacy
    compare_legacy_same metric none acc fin = refl
    compare_legacy_same metric (some x) acc fin =
        classify_same tol metric x _ acc are_tolerances fin

  tolerance_of_nonneg :
      (tol : Dict F) → All (λ t. f.lt t zero_float ≡ false) (values tol) → AreTolerances tol
  unfolding tolerance_of
  tolerance_of_nonneg tol a metric = elim (Option-cases (lookup metric tol)) [
    | inl missing ↦ rw (missing, tolerance_of) (laws.lit_nonneg 5 2)
    | inr (t, found) ↦
        rw (found, tolerance_of) (lookup-All (λ t. f.lt t zero_float ≡ false) metric t tol a found)
  ]

  default-AreTolerances : AreTolerances default_tolerances
  unfolding default_tolerances
  default-AreTolerances =
      let nonneg = laws.lit_nonneg in
      tolerance_of_nonneg default_tolerances (
        nonneg 5 2,
        (
          nonneg 5 2,
          (
            nonneg 20 2,
            (
              nonneg 20 2,
              (
                nonneg 5 2,
                (
                  nonneg 5 2,
                  (nonneg 5 2, (nonneg 5 2, (nonneg 5 2, (nonneg 5 2, (nonneg 5 2, tt))))),
                ),
              ),
            ),
          ),
        ),
      )

module _ {F D : Type 0} ⦃f : Float F⦄ (laws : IsFloat F) where
  -- all values that a run is compared by are finite
  pub record IsFiniteRun (run : EvaluationRun F D) : Type 0 where
    pub relevance : IsFiniteIfAny laws run.relevance
    pub unsupported : IsFinite (fraction_unsupported run.hallucination)
    pub latency_ms : IsFiniteIfAny laws run.latency_ms
    pub estimated_cost : IsFiniteIfAny laws run.estimated_cost

  abbrev pub HasFiniteScore : MetricResultRecord F D → Type 0
  HasFiniteScore m = IsFinite m.score

  metric_map-All :
      (ms : List (MetricResultRecord F D)) (d : Dict (MetricResultRecord F D))
      → All (λ e. HasFiniteScore e.1) d
      → All HasFiniteScore ms
      → All (λ e. HasFiniteScore e.1) (metric_map d ms)
  unfolding metric_map
  metric_map-All [] d a h = a
  metric_map-All (m ∷ ms) d a h =
      metric_map-All ms (insert m.metric m d)
        (All-insert (λ k x. HasFiniteScore x) m.metric m d a h.0) h.1

  module _ (tol : Dict F) (are_tolerances : AreTolerances laws tol) where
    legacy_same :
        (run : EvaluationRun F D) (acc : Findings F)
        → IsFiniteRun run
        → legacy_loop tol (legacy_comparisons run run) acc ≡ acc
    unfolding legacy_loop legacy_comparisons
    legacy_same run acc h =
        rw (compare_legacy_same laws tol are_tolerances "relevance" run.relevance acc h.relevance) (
          rw
            (compare_legacy_same laws tol are_tolerances "hallucination_fraction_unsupported"
              (some (fraction_unsupported run.hallucination)) acc h.unsupported)
            (rw
              (compare_legacy_same laws tol are_tolerances "latency_ms" run.latency_ms acc
                h.latency_ms)
              (compare_legacy_same laws tol are_tolerances "estimated_cost" run.estimated_cost acc
                h.estimated_cost)))

    -- a pair that `comparable` takes from one map is twice the record found there
    comparable_same :
        (metric : String) (d : Dict (MetricResultRecord F D))
        (p : MetricResultRecord F D × MetricResultRecord F D)
        → comparable metric d d ≡ some p
        → (lookup metric d ≡ some p.0) × (p.1 ≡ p.0)
    unfolding comparable
    comparable_same metric d (b, c) e = ground arith

    metric_loop_same :
        (names : List String) (d : Dict (MetricResultRecord F D)) (acc : Findings F)
        → All HasFiniteScore (values d)
        → metric_loop tol d d names acc ≡ acc
    unfolding metric_loop compare_metric
    metric_loop_same [] d acc h = refl
    metric_loop_same (metric ∷ rest) d acc h =
        rw (one (comparable metric d d) refl) (metric_loop_same rest d acc h)
      where
        one :
            (o : Option (MetricResultRecord F D × MetricResultRecord F D))
            → comparable metric d d ≡ o
            → compare_metric tol metric o acc ≡ acc
        one none e = refl
        one (some (b, c)) e =
            let (found, same) = comparable_same metric d (b, c) e in
            rw same (
              classify_same laws tol metric b.score _ acc are_tolerances
                (lookup-All HasFiniteScore metric b d h found))

  abbrev pub AllFinite : Option (List (MetricResultRecord F D)) → Type 0
  AllFinite none = Unit
  AllFinite (some ms) = All HasFiniteScore ms

  -- A run with finite values compared with itself, with its metric records or without, under the
  -- default tolerances: neither a regression nor an improvement, in whatever order.
  pub detect_regressions_same :
      (set_order : List String → List String) (run : EvaluationRun F D)
      (ms : Option (List (MetricResultRecord F D)))
      → IsFiniteRun run
      → AllFinite ms
      → detect_regressions set_order run run none ms ms ≡ record {
        overall = no_regression;
        baseline_id = run.id;
        regressions = [];
        improvements = [];
      }
  unfolding detect_regressions advanced_findings
  detect_regressions_same set_order run none h fin =
      rw (legacy_same default_tolerances (default-AreTolerances laws) run _ h)
  detect_regressions_same set_order run (some ms) h fin =
      rw (legacy_same default_tolerances (default-AreTolerances laws) run _ h) (
        rw (
          metric_loop_same default_tolerances (default-AreTolerances laws)
            (set_order (keys (metric_map [] ms) ++ keys (metric_map [] ms))) (metric_map [] ms) _
            (All-values HasFiniteScore (metric_map [] ms) (metric_map-All ms [] tt fin))))
