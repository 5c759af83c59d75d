-- ===== src/Composite.antt =====
-- evaluator/composite.py.
pub mod Partition
mod Tests
use llm_evaluation_pipeline.Prelude.{
  String, Bool, true, false, not, ◌&&◌, Option, none, some, List, [], ◌∷◌, ◌++◌, ◌==◌,
  text_comparable, if◌then◌else◌, is_empty,
}
use llm_evaluation_pipeline.Dict.{Dict, lookup, insert, keys, values}
use llm_evaluation_pipeline.Number.{Float, zero_float, one_float, min_float, abs}
use llm_evaluation_pipeline.Metric.{MetricResult, is_error}

pub record Contribution (F : Type 0) : Type 0 where
  pub score : F
  pub weight : F
  pub contribution : F
  pub evaluator_version : String

-- `missing_metrics` and `weights_used` are absent where `error` is present.
pub record CompositeResult (F : Type 0) : Type 0 where
  pub composite_score : F
  pub contributions : Dict (Contribution F)
  pub missing_metrics : Option (List String)
  pub weights_used : Option (Dict F)
  pub error : Option String

-- the variables of the loop
pub record Tally (F : Type 0) : Type 0 where
  pub contributions : Dict (Contribution F)
  pub weighted_sum : F
  pub total_weight_used : F
  pub missing_metrics : List String

module _ {F D : Type 0} where
  -- `{r.metric: r for r in results}` on top of `d`
  unfoldable pub add_results :
      Dict (MetricResult F D) → List (MetricResult F D) → Dict (MetricResult F D)
  add_results d [] = d
  add_results d (r ∷ rs) = add_results (insert r.metric r d) rs

  abbrev pub result_map : List (MetricResult F D) → Dict (MetricResult F D)
  result_map = add_results []

module _ {F : Type 0} where
  abbrev pub map_values : (F → F) → Dict F → Dict F
  map_values g [] = []
  map_values g ((k, v) ∷ d) = (k, g v) ∷ map_values g d

  unfoldable pub add_missing : String → Tally F → Tally F
  add_missing metric t = record t { missing_metrics = t.missing_metrics ++ metric ∷ [] }

module _ {F : Type 0} ⦃f : Float F⦄ where
  abbrev pub no_tally : Tally F
  no_tally = record {
    contributions = [];
    weighted_sum = zero_float;
    total_weight_used = zero_float;
    missing_metrics = [];
  }

  -- `weighted_sum` after the weight of the missing metrics is redistributed
  unfoldable pub redistribute : Tally F → F
  redistribute t =
      if not (is_empty t.missing_metrics) && f.lt zero_float t.total_weight_used
      then (f.mul t.weighted_sum (
          if f.lt t.total_weight_used one_float
          then f.div one_float (f.sub one_float t.total_weight_used)
          else one_float))
      else t.weighted_sum

  abbrev pub no_score : String → CompositeResult F
  no_score e = record {
    composite_score = zero_float;
    contributions = [];
    missing_metrics = none;
    weights_used = none;
    error = some e;
  }

module _ {F D : Type 0} ⦃f : Float F⦄ where
  unfoldable pub add_contribution : String → F → MetricResult F D → Tally F → Tally F
  add_contribution metric weight r t =
      let contribution = f.mul r.score weight in
      record {
        contributions =
            insert metric
              (record {
                score = r.score;
                weight = f.round weight 4;
                contribution = f.round contribution 4;
                evaluator_version = r.evaluator_version;
              })
              t.contributions;
        weighted_sum = f.add t.weighted_sum contribution;
        total_weight_used = f.add t.total_weight_used weight;
        missing_metrics = t.missing_metrics;
      }

  -- one round of the loop
  unfoldable pub weigh : Dict (MetricResult F D) → String → F → Tally F → Tally F
  weigh results metric weight t = elim (lookup metric results) [
    | none ↦ add_missing metric t
    | some r ↦ if is_error r.error then add_missing metric t else add_contribution metric weight r t
  ]

  unfoldable pub weigh_all : Dict (MetricResult F D) → Dict F → Tally F → Tally F
  weigh_all results [] t = t
  weigh_all results ((metric, weight) ∷ ws) t = weigh_all results ws (weigh results metric weight t)

  unfoldable pub compute_composite : List (MetricResult F D) → Dict F → CompositeResult F
  compute_composite results weights =
      if is_empty weights
      then no_score "no_weights"
      else let total_weight = f.sum (values weights) in
        if f.eq total_weight zero_float
        then no_score "zero_total_weight"
        else let normalized = map_values (λ v. f.div v total_weight) weights in
          let t = weigh_all (result_map results) normalized no_tally in
          record {
            composite_score = f.round (min_float (redistribute t) one_float) 4;
            contributions = t.contributions;
            missing_metrics = some t.missing_metrics;
            weights_used = some (map_values (λ v. f.round v 4) normalized);
            error = none;
          }

pub data Warning (F : Type 0) : Type 0 where
  no_weights : Warning F
  negative_weights : List String → Warning F
  weights_sum_to : F → Warning F

module _ {F : Type 0} ⦃f : Float F⦄ where
  unfoldable pub negative_keys : Dict F → List String
  negative_keys [] = []
  negative_keys ((k, v) ∷ d) =
      let rest = negative_keys d in if f.lt v zero_float then k ∷ rest else rest

  unfoldable pub validate_weights : Dict F → List (Warning F)
  validate_weights weights =
      if is_empty weights
      then no_weights ∷ []
      else let negative = negative_keys weights in
        let total = f.sum (values weights) in
        (if is_empty negative then [] else negative_weights negative ∷ [])
        ++ (if f.lt (f.lit 1 2) (abs (f.sub total one_float))
            then weights_sum_to total ∷ []
            else [])
