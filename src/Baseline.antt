-- ===== src/Baseline.antt =====
-- `detect_regressions` of app/services/baseline_service.py.
pub mod Verdict
pub mod Same
pub mod Drops
mod Tests
use llm_evaluation_pipeline.Prelude.{
  is_empty, ℕ, String, Bool, true, false, not, ◌&&◌, ◌||◌, Option, none, some, List, [], ◌∷◌, ◌++◌,
  ◌==◌, text_comparable, if◌then◌else◌,
}
use llm_evaluation_pipeline.Dict.{Dict, lookup, insert, keys}
use llm_evaluation_pipeline.Number.{Float, zero_float, one_float, neg}
use llm_evaluation_pipeline.Metric.{
  is_error, Direction, higher_is_better, lower_is_better, metric_direction, Hallucination,
}
use llm_evaluation_pipeline.Models.{EvaluationRun, MetricResultRecord}

pub data Source : Type 0 where
  legacy metric_results : Source

-- An entry of `regressions` or `improvements`; only those of the metric_results table have versions.
pub record RegressionEntry (F : Type 0) : Type 0 where
  pub metric : String
  pub baseline : F
  pub current : F
  pub change : F
  pub threshold : F
  pub direction : Direction
  pub baseline_version : Option String
  pub current_version : Option String
  pub source : Source

-- the two lists that the loops append to
pub record Findings (F : Type 0) : Type 0 where
  pub regressions : List (RegressionEntry F)
  pub improvements : List (RegressionEntry F)

pub data Overall : Type 0 where
  no_regression regression_detected : Overall

pub record Comparison (F : Type 0) : Type 0 where
  pub overall : Overall
  pub baseline_id : ℕ
  pub regressions : List (RegressionEntry F)
  pub improvements : List (RegressionEntry F)

-- `METRIC_DIRECTION.get(metric, "higher_is_better")`
unfoldable pub direction_of : String → Direction
direction_of metric = elim (lookup metric metric_direction) [ none ↦ higher_is_better | some d ↦ d ]

module _ {F : Type 0} ⦃f : Float F⦄ where
  unfoldable pub default_tolerances : Dict F
  default_tolerances =
      ("relevance", f.lit 5 2)
      ∷ ("hallucination_fraction_unsupported", f.lit 5 2)
      ∷ ("latency_ms", f.lit 20 2)
      ∷ ("estimated_cost", f.lit 20 2)
      ∷ ("faithfulness", f.lit 5 2)
      ∷ ("context_precision", f.lit 5 2)
      ∷ ("context_recall", f.lit 5 2)
      ∷ ("answer_relevancy", f.lit 5 2)
      ∷ ("citation_correctness", f.lit 5 2)
      ∷ ("composite_score", f.lit 5 2)
      ∷ ("llm_judge", f.lit 5 2)
      ∷ []

  -- `tolerances.get(metric, 0.05)`
  unfoldable pub tolerance_of : Dict F → String → F
  tolerance_of tolerances metric = elim (lookup metric tolerances) [ none ↦ f.lit 5 2 | some t ↦ t ]

  unfoldable pub is_regression : Direction → F → F → Bool
  is_regression higher_is_better change tolerance = f.lt change (neg tolerance)
  is_regression lower_is_better change tolerance = f.lt tolerance change

  -- the end of both loops' bodies
  unfoldable pub classify : Bool → F → RegressionEntry F → Findings F → Findings F
  classify regressed change entry acc =
      if regressed
      then record acc { regressions = acc.regressions ++ entry ∷ [] }
      else if not (f.eq change zero_float)
      then record acc { improvements = acc.improvements ++ entry ∷ [] }
      else acc

  abbrev pub legacy_entry : Dict F → String → F → F → RegressionEntry F
  legacy_entry tolerances metric b c = record {
    metric = metric;
    baseline = b;
    current = c;
    change = f.round (f.sub c b) 6;
    threshold = tolerance_of tolerances metric;
    direction = direction_of metric;
    baseline_version = none;
    current_version = none;
    source = legacy;
  }

  -- the verdict on one metric with both values
  unfoldable pub regresses : Dict F → String → F → F → Bool
  regresses tolerances metric b c =
      is_regression (direction_of metric) (f.sub c b) (tolerance_of tolerances metric)

  unfoldable pub compare_legacy : Dict F → String → Option F → Option F → Findings F → Findings F
  compare_legacy tolerances metric (some b) (some c) acc =
      classify (regresses tolerances metric b c) (f.sub c b) (legacy_entry tolerances metric b c)
        acc
  compare_legacy tolerances metric (some b) none acc = acc
  compare_legacy tolerances metric none c acc = acc

  unfoldable pub legacy_loop : Dict F → Dict (Option F × Option F) → Findings F → Findings F
  legacy_loop tolerances [] acc = acc
  legacy_loop tolerances ((metric, (b, c)) ∷ rest) acc =
      legacy_loop tolerances rest (compare_legacy tolerances metric b c acc)

module _ {F D : Type 0} ⦃f : Float F⦄ where
  -- the fraction of unsupported sentences; no report, or an empty one, counts as none
  unfoldable pub fraction_unsupported : Option (Hallucination F D) → F
  fraction_unsupported none = zero_float
  fraction_unsupported (some h) = elim h.fraction_supported [
    | none ↦ elim h.flags [
      | none ↦ elim h.details [ none ↦ zero_float | some x ↦ f.sub one_float one_float ]
      | some x ↦ f.sub one_float one_float
    ]
    | some x ↦ f.sub one_float x
  ]

  -- `_get_legacy_comparisons`
  unfoldable pub legacy_comparisons :
      EvaluationRun F D → EvaluationRun F D → Dict (Option F × Option F)
  legacy_comparisons b c =
      ("relevance", (b.relevance, c.relevance))
      ∷ (
        "hallucination_fraction_unsupported",
        (some (fraction_unsupported b.hallucination), some (fraction_unsupported c.hallucination)),
      )
      ∷ ("latency_ms", (b.latency_ms, c.latency_ms))
      ∷ ("estimated_cost", (b.estimated_cost, c.estimated_cost))
      ∷ []

  -- `{m.metric: m for m in metrics}`
  unfoldable pub metric_map :
      Dict (MetricResultRecord F D) → List (MetricResultRecord F D) → Dict (MetricResultRecord F D)
  metric_map d [] = d
  metric_map d (m ∷ ms) = metric_map (insert m.metric m d) ms

  abbrev pub metric_entry :
      Dict F → String → MetricResultRecord F D → MetricResultRecord F D → RegressionEntry F
  metric_entry tolerances metric b c = record {
    metric = metric;
    baseline = b.score;
    current = c.score;
    change = f.round (f.sub c.score b.score) 6;
    threshold = tolerance_of tolerances metric;
    direction = direction_of metric;
    baseline_version = some b.evaluator_version;
    current_version = some c.evaluator_version;
    source = metric_results;
  }

  -- the pair of records to compare; `none` is `continue`
  unfoldable pub comparable :
      String
      → Dict (MetricResultRecord F D)
      → Dict (MetricResultRecord F D)
      → Option (MetricResultRecord F D × MetricResultRecord F D)
  comparable metric baseline current =
      if metric == "latency" || metric == "cost" then none else elim (lookup metric baseline) [
        | none ↦ none
        | some b ↦ elim (lookup metric current) [
          | none ↦ none
          | some c ↦ if is_error b.error || is_error c.error then none else some (b, c)
        ]
      ]

  unfoldable pub compare_metric :
      Dict F
      → String
      → Option (MetricResultRecord F D × MetricResultRecord F D)
      → Findings F
      → Findings F
  compare_metric tolerances metric none acc = acc
  compare_metric tolerances metric (some (b, c)) acc =
      classify (regresses tolerances metric b.score c.score) (f.sub c.score b.score)
        (metric_entry tolerances metric b c) acc

  unfoldable pub metric_loop :
      Dict F
      → Dict (MetricResultRecord F D)
      → Dict (MetricResultRecord F D)
      → List String
      → Findings F
      → Findings F
  metric_loop tolerances baseline current [] acc = acc
  metric_loop tolerances baseline current (metric ∷ rest) acc =
      metric_loop tolerances baseline current rest
        (compare_metric tolerances metric (comparable metric baseline current) acc)

  -- The second loop goes over a `set` of names, in the interpreter's order: `set_order` of the names
  -- of both maps.
  unfoldable pub advanced_findings :
      (List String → List String)
      → Dict F
      → Option (List (MetricResultRecord F D))
      → Option (List (MetricResultRecord F D))
      → Findings F
      → Findings F
  advanced_findings set_order tolerances (some baseline) (some current) acc =
      let b = metric_map [] baseline in
      let c = metric_map [] current in metric_loop tolerances b c (set_order (keys b ++ keys c)) acc
  advanced_findings set_order tolerances (some baseline) none acc = acc
  advanced_findings set_order tolerances none current acc = acc

  unfoldable pub detect_regressions :
      (List String → List String)
      → EvaluationRun F D
      → EvaluationRun F D
      → Option (Dict F)
      → Option (List (MetricResultRecord F D))
      → Option (List (MetricResultRecord F D))
      → Comparison F
  detect_regressions set_order baseline_run current_run tolerances baseline_metrics
        current_metrics =
      let tol : Dict F = elim tolerances [ none ↦ default_tolerances | some t ↦ t ] in
      let found = advanced_findings set_order tol baseline_metrics current_metrics (
        legacy_loop tol (legacy_comparisons baseline_run current_run)
          (record { regressions = []; improvements = [] })) in
      record {
        overall = if is_empty found.regressions then no_regression else regression_detected;
        baseline_id = baseline_run.id;
        regressions = found.regressions;
        improvements = found.improvements;
      }
