-- ===== src/Ci.antt =====
-- scripts/evaluate_ci.py, but for what it prints. `evaluate` stands for `evaluate_with_profile`, which may
-- raise; the dataset is what `json.load` returns, its missing keys replaced by their defaults where the
-- script does so.
pub mod Verdict
mod Tests
use llm_evaluation_pipeline.Prelude.{
  ℕ, zero, suc, ◌+◌, String, Bool, true, false, Option, none, some, List, [], ◌∷◌, ◌++◌, ◌&&◌, map,
  if◌then◌else◌, ◌==◌, text_comparable,
}
use llm_evaluation_pipeline.Dict.{Dict, lookup}
use llm_evaluation_pipeline.Number.{Float, zero_float}
use llm_evaluation_pipeline.Metric.{MetricResult, is_error}
use llm_evaluation_pipeline.Models.{ContextChunk}
use llm_evaluation_pipeline.Composite.{result_map}
use llm_evaluation_pipeline.App.{Exception, Result, ok, raised}
use llm_evaluation_pipeline.Evaluators.{Sample}

-- `ctx`: the chunks may be texts
pub data CiContext : Type 0 where
  plain_texts : List String → CiContext
  chunks : List ContextChunk → CiContext

pub record CiItem : Type 0 where
  pub question : String
  pub answer : String
  pub context : CiContext
  pub reference_answer : String
  pub input_tokens : Option ℕ
  pub output_tokens : Option ℕ

-- `threshold_config`
pub record CiThreshold (F : Type 0) : Type 0 where
  pub value : Option F
  pub direction : Option String

pub record Dataset (F : Type 0) : Type 0 where
  pub items : List CiItem
  pub profile : Option String
  pub quality_thresholds : Dict (CiThreshold F)

-- an entry of `results_summary`, without the name of the sample
pub record Check (F : Type 0) : Type 0 where
  pub metric : String
  pub score : F
  pub threshold : F
  pub passed : Bool

-- the variables of the loop over the items
pub record CiTally (F : Type 0) : Type 0 where
  pub all_passed : Bool
  pub results_summary : List (Check F)

abbrev pub or_default : {A : Type 0} → A → Option A → A
or_default d none = d
or_default d (some x) = x

unfoldable pub chunks_of : CiContext → List ContextChunk
chunks_of (chunks cs) = cs
chunks_of (plain_texts ts) = map (λ t. record { id = ""; text = t }) ts

module _ {F : Type 0} where
  unfoldable pub sample_of : CiItem → Sample F
  sample_of item = record {
    question = item.question;
    answer = item.answer;
    context = chunks_of item.context;
    conversation = record {
      model_response = item.answer;
      question = "";
      input_tokens = or_default 100 item.input_tokens;
      output_tokens = or_default 200 item.output_tokens;
      latency_ms = none;
      reference_answer = "";
      citations = [];
    };
    citations = [];
    reference_answer = item.reference_answer;
    metadata_latency_ms = none;
  }

module _ {F : Type 0} ⦃f : Float F⦄ where
  -- `threshold_value`
  abbrev pub value_of : CiThreshold F → F
  value_of t = or_default zero_float t.value

  -- `score >= threshold_value if direction == "higher_is_better" else score <= threshold_value`
  unfoldable pub meets : CiThreshold F → F → Bool
  meets t score =
      if or_default "higher_is_better" t.direction == "higher_is_better"
      then f.le (value_of t) score
      else f.le score (value_of t)

module _ {F D : Type 0} ⦃f : Float F⦄ where
  unfoldable pub add_check : String → CiThreshold F → MetricResult F D → CiTally F → CiTally F
  add_check name t r tally = record {
    all_passed = tally.all_passed && meets t r.score;
    results_summary =
        tally.results_summary
        ++ record {
          metric = name;
          score = f.round r.score 4;
          threshold = value_of t;
          passed = meets t r.score;
        }
          ∷ [];
  }

  -- one threshold; a metric that is missing or has an error is passed over
  unfoldable pub check_metric :
      Dict (MetricResult F D) → String → CiThreshold F → CiTally F → CiTally F
  check_metric by_name name t tally = elim (lookup name by_name) [
    | none ↦ tally
    | some r ↦ if is_error r.error then tally else add_check name t r tally
  ]

  unfoldable pub check_metrics :
      Dict (MetricResult F D) → Dict (CiThreshold F) → CiTally F → CiTally F
  check_metrics by_name [] tally = tally
  check_metrics by_name ((name, t) ∷ ts) tally =
      check_metrics by_name ts (check_metric by_name name t tally)

  unfoldable pub check_results :
      Result (List (MetricResult F D)) → Dict (CiThreshold F) → CiTally F → CiTally F
  check_results (raised e) thresholds tally = record tally { all_passed = false }
  check_results (ok results) thresholds tally = check_metrics (result_map results) thresholds tally

module _ {F D : Type 0} ⦃f : Float F⦄
    (evaluate : String → Sample F → Result (List (MetricResult F D))) where
  unfoldable pub check_items : String → Dict (CiThreshold F) → List CiItem → CiTally F → CiTally F
  check_items profile thresholds [] tally = tally
  check_items profile thresholds (item ∷ items) tally =
      check_items profile thresholds items
        (check_results (evaluate profile (sample_of item)) thresholds tally)

  -- the exit code; the dataset is missing if its file is
  unfoldable pub main : Option (Dataset F) → ℕ
  main none = 1
  main (some d) =
      if (check_items (or_default "basic" d.profile) d.quality_thresholds d.items
        (record { all_passed = true; results_summary = [] })).all_passed
      then 0
      else 1
