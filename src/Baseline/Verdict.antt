-- ===== src/Baseline/Verdict.antt =====
-- When `detect_regressions` reports a regression.
use llm_evaluation_pipeline.Prelude.{
  String, ◌≡◌, refl, ◌↔◌, Bool, true, false, ◌||◌, Option, none, some, List, [], ◌∷◌, ◌++◌, arith,
  ◌==◌, text_comparable, is_empty, All, Bool-cases, Option-cases, if◌then◌else◌, eq_self, ◌∙◌, inl,
  inr,
}
use text.Mathlib.TextEquality.{eq_iff}
use llm_evaluation_pipeline.Dict.{Dict, lookup, keys}
use llm_evaluation_pipeline.Number.{Float, neg}
use llm_evaluation_pipeline.Metric.{Direction, higher_is_better, lower_is_better}
use llm_evaluation_pipeline.Models.{EvaluationRun, MetricResultRecord}
use llm_evaluation_pipeline.Baseline.{
  RegressionEntry, Findings, no_regression, regression_detected, direction_of, tolerance_of,
  is_regression, regresses, classify, compare_legacy, legacy_loop, legacy_comparisons, metric_map,
  comparable, compare_metric, metric_loop, detect_regressions, advanced_findings,
}

-- `k in xs`
pub elem : String → List String → Bool
elem k [] = false
elem k (x ∷ xs) = x == k || elem k xs

-- The order of a set loses and invents no name.
abbrev pub IsSetOrder : (List String → List String) → Type 0
IsSetOrder set_order = (k : String) (names : List String) → elem k (set_order names) ≡ elem k names

module _ (P : String → Type 0) where
  All-of-elem : (xs : List String) → ((k : String) → elem k xs ≡ true → P k) → All P xs
  unfolding elem
  All-of-elem [] h = tt
  All-of-elem (x ∷ xs) h = (h x (rw eq_self), All-of-elem xs λ k e. h k (ground (arith, e)))

  elem-All : (k : String) (xs : List String) → All P xs → elem k xs ≡ true → P k
  unfolding elem
  elem-All k [] a e = cc
  elem-All k (x ∷ xs) a e = elim (Bool-cases (x == k)) [
    | inl same ↦ rw (← (eq_iff x k).0 same) a.0
    | inr other ↦ elem-All k xs a.1 (rw other at e)
  ]

elem-append : (k : String) (xs ys : List String) → elem k xs ≡ true → elem k (xs ++ ys) ≡ true
unfolding elem
elem-append k [] ys e = cc
elem-append k (x ∷ xs) ys e = ground (arith, elem-append k xs ys)

elem-keys :
    {V : Type 0} (k : String) (v : V) (d : Dict V) → lookup k d ≡ some v → elem k (keys d) ≡ true
unfolding elem lookup
elem-keys k v [] e = cc
elem-keys k v ((j, w) ∷ d) e = ground (arith, elem-keys k v d)

module _ {F : Type 0} ⦃f : Float F⦄ where
  -- the change is no worse than the tolerance allows
  abbrev pub IsTolerated : Direction → F → F → Type 0
  IsTolerated higher_is_better change tolerance = f.lt change (neg tolerance) ≡ false
  IsTolerated lower_is_better change tolerance = f.lt tolerance change ≡ false

  abbrev pub IsSteady : Dict F → String → F → F → Type 0
  IsSteady tolerances metric b c =
      IsTolerated (direction_of metric) (f.sub c b) (tolerance_of tolerances metric)

  abbrev pub IsSteadyPair : Dict F → String × (Option F × Option F) → Type 0
  IsSteadyPair tolerances (metric, (some b, some c)) = IsSteady tolerances metric b c
  IsSteadyPair tolerances (metric, (some b, none)) = Unit
  IsSteadyPair tolerances (metric, (none, c)) = Unit

  IsTolerated-iff :
      (d : Direction) (change tolerance : F)
      → (is_regression d change tolerance ≡ false) ↔ IsTolerated d change tolerance
  unfolding is_regression
  IsTolerated-iff higher_is_better change tolerance = (λ h. h, λ h. h)
  IsTolerated-iff lower_is_better change tolerance = (λ h. h, λ h. h)

  is_empty-append :
      (xs : List (RegressionEntry F)) (e : RegressionEntry F) → is_empty (xs ++ e ∷ []) ≡ false
  is_empty-append [] e = refl
  is_empty-append (x ∷ xs) e = refl

  classify_clean :
      (r : Bool) (change : F) (e : RegressionEntry F) (acc : Findings F)
      → (is_empty (classify r change e acc).regressions ≡ true)
        ↔ ((is_empty acc.regressions ≡ true) × (r ≡ false))
  unfolding classify
  classify_clean r change e acc = ground (arith, is_empty-append acc.regressions e)

  compare_legacy_clean :
      (tol : Dict F) (metric : String) (b c : Option F) (acc : Findings F)
      → (is_empty (compare_legacy tol metric b c acc).regressions ≡ true)
        ↔ ((is_empty acc.regressions ≡ true) × IsSteadyPair tol (metric, (b, c)))
  unfolding compare_legacy regresses
  compare_legacy_clean tol metric (some b) (some c) acc =
      let k = classify_clean (regresses tol metric b c) (f.sub c b) _ acc in
      let t = IsTolerated-iff (direction_of metric) (f.sub c b) (tolerance_of tol metric) in
      (λ h. ((k.0 h).0, t.0 (k.0 h).1), λ h. k.1 (h.0, t.1 h.1))
  compare_legacy_clean tol metric (some b) none acc = (λ h. (h, tt), λ h. h.0)
  compare_legacy_clean tol metric none c acc = (λ h. (h, tt), λ h. h.0)

  legacy_loop_clean :
      (tol : Dict F) (d : Dict (Option F × Option F)) (acc : Findings F)
      → (is_empty (legacy_loop tol d acc).regressions ≡ true)
        ↔ ((is_empty acc.regressions ≡ true) × All (IsSteadyPair tol) d)
  unfolding legacy_loop
  legacy_loop_clean tol [] acc = (λ h. (h, tt), λ h. h.0)
  legacy_loop_clean tol ((metric, (b, c)) ∷ rest) acc =
      let one = compare_legacy_clean tol metric b c acc in
      let more = legacy_loop_clean tol rest (compare_legacy tol metric b c acc) in
      (
        λ h. let p = more.0 h in let q = one.0 p.0 in (q.0, (q.1, p.1)),
        λ h. more.1 (one.1 (h.0, h.1.0), h.1.1),
      )

module _ {F D : Type 0} ⦃f : Float F⦄ where
  -- the comparison of two records is not a regression
  abbrev pub IsSteadyRecords :
      Dict F → String → Option (MetricResultRecord F D × MetricResultRecord F D) → Type 0
  IsSteadyRecords tol metric none = Unit
  IsSteadyRecords tol metric (some (b, c)) = IsSteady tol metric b.score c.score

  compare_metric_clean :
      (tol : Dict F) (metric : String)
      (o : Option (MetricResultRecord F D × MetricResultRecord F D)) (acc : Findings F)
      → (is_empty (compare_metric tol metric o acc).regressions ≡ true)
        ↔ ((is_empty acc.regressions ≡ true) × IsSteadyRecords tol metric o)
  unfolding compare_metric regresses
  compare_metric_clean tol metric none acc = (λ h. (h, tt), λ h. h.0)
  compare_metric_clean tol metric (some (b, c)) acc =
      let change = f.sub c.score b.score in
      let k = classify_clean (regresses tol metric b.score c.score) change _ acc in
      let t = IsTolerated-iff (direction_of metric) change (tolerance_of tol metric) in
      (λ h. ((k.0 h).0, t.0 (k.0 h).1), λ h. k.1 (h.0, t.1 h.1))

  module _ (tol : Dict F) (bs cs : Dict (MetricResultRecord F D)) where
    abbrev IsSteadyName : String → Type 0
    IsSteadyName metric = IsSteadyRecords tol metric (comparable metric bs cs)

    metric_loop_clean :
        (names : List String) (acc : Findings F)
        → (is_empty (metric_loop tol bs cs names acc).regressions ≡ true)
          ↔ ((is_empty acc.regressions ≡ true) × All IsSteadyName names)
    unfolding metric_loop
    metric_loop_clean [] acc = (λ h. (h, tt), λ h. h.0)
    metric_loop_clean (metric ∷ rest) acc =
        let one = compare_metric_clean tol metric (comparable metric bs cs) acc in
        let more =
          metric_loop_clean rest (compare_metric tol metric (comparable metric bs cs) acc) in
        (
          λ h. let p = more.0 h in let q = one.0 p.0 in (q.0, (q.1, p.1)),
          λ h. more.1 (one.1 (h.0, h.1.0), h.1.1),
        )

  elem-comparable :
      (metric : String) (bs cs : Dict (MetricResultRecord F D))
      (p : MetricResultRecord F D × MetricResultRecord F D)
      → comparable metric bs cs ≡ some p
      → elem metric (keys bs ++ keys cs) ≡ true
  unfolding comparable
  elem-comparable metric bs cs p e = elim (Option-cases (lookup metric bs)) [
    | inl missing ↦ ground arith
    | inr (b, found) ↦ elem-append metric (keys bs) (keys cs) (elem-keys metric b bs found)
  ]

  -- every metric with two records to compare is steady
  abbrev pub IsSteadyTable :
      Dict F
      → Option (List (MetricResultRecord F D))
      → Option (List (MetricResultRecord F D))
      → Type 0
  IsSteadyTable tol (some baseline) (some current) =
      (metric : String)
      → IsSteadyRecords tol metric
          (comparable metric (metric_map [] baseline) (metric_map [] current))
  IsSteadyTable tol (some baseline) none = Unit
  IsSteadyTable tol none current = Unit

  module _ (set_order : List String → List String) (is_order : IsSetOrder set_order) where
    advanced_clean :
        (tol : Dict F) (baseline current : Option (List (MetricResultRecord F D)))
        (acc : Findings F)
        → (is_empty (advanced_findings set_order tol baseline current acc).regressions ≡ true)
          ↔ ((is_empty acc.regressions ≡ true) × IsSteadyTable tol baseline current)
    unfolding advanced_findings
    advanced_clean tol (some baseline) (some current) acc =
        let bs = metric_map [] baseline in
        let cs = metric_map [] current in
        let names = set_order (keys bs ++ keys cs) in
        let k = metric_loop_clean tol bs cs names acc in
        let P = IsSteadyName tol bs cs in
        (
          λ h. ((k.0 h).0, λ metric. every metric bs cs (k.0 h).1 (comparable metric bs cs) refl),
          λ h. k.1 (h.0, All-of-elem P names λ metric _. h.1 metric),
        )
      where
        every :
            (metric : String) (bs cs : Dict (MetricResultRecord F D))
            → All (IsSteadyName tol bs cs) (set_order (keys bs ++ keys cs))
            → (o : Option (MetricResultRecord F D × MetricResultRecord F D))
            → comparable metric bs cs ≡ o
            → IsSteadyRecords tol metric o
        every metric bs cs a none e = tt
        every metric bs cs a (some p) e = rw e at (
            elem-All (IsSteadyName tol bs cs) metric (set_order (keys bs ++ keys cs)) a
              (is_order metric (keys bs ++ keys cs) ∙ elem-comparable metric bs cs p e))
    advanced_clean tol (some baseline) none acc = (λ h. (h, tt), λ h. h.0)
    advanced_clean tol none current acc = (λ h. (h, tt), λ h. h.0)

    -- No regression is reported exactly when no metric is worse than its tolerance allows: none of the
    -- four legacy metrics that both runs have, and, if the metric records of both runs are given,
    -- none of the metrics other than latency and cost with an error-free record in both, of which the
    -- last counts. The order in which the set of names is gone over does not matter.
    pub detect_regressions_iff :
        (baseline_run current_run : EvaluationRun F D) (tol : Dict F)
        (baseline current : Option (List (MetricResultRecord F D)))
        → ((detect_regressions set_order baseline_run current_run
              (some tol)
              baseline
              current).overall
            ≡ no_regression)
          ↔ (All (IsSteadyPair tol) (legacy_comparisons baseline_run current_run)
              × IsSteadyTable tol baseline current)
    unfolding detect_regressions
    detect_regressions_iff baseline_run current_run tol baseline current =
        let start : Findings F = record { regressions = []; improvements = [] } in
        let pairs = legacy_comparisons baseline_run current_run in
        let old = legacy_loop_clean tol pairs start in
        let new = advanced_clean tol baseline current (legacy_loop tol pairs start) in
        (
          λ h. let p = new.0 (clean _ h) in ((old.0 p.0).1, p.1),
          λ h. rw (new.1 (old.1 (refl, h.0), h.1)),
        )
      where
        clean :
            (b : Bool)
            → (if b then no_regression else regression_detected) ≡ no_regression
            → b ≡ true
        clean true h = refl
        clean false h = cc
