-- ===== src/Metric.antt =====
-- evaluator/base.py: what an evaluator returns, and METRIC_DIRECTION of
-- app/services/quality_gate_service.py, which says whether more of a metric is better.
use llm_evaluation_pipeline.Prelude.{
  false, not, ◌==◌, text_comparable, String, Bool, Option, none, some, [], ◌∷◌,
}
use llm_evaluation_pipeline.Dict.{Dict}

-- The `details` of a result are what its evaluator reports beside the score: `D`.
pub record MetricResult (F D : Type 0) : Type 0 where
  pub metric : String
  pub score : F
  pub evaluator_version : String
  pub passed : Option Bool
  pub details : D
  pub error : Option String

pub data Direction : Type 0 where
  higher_is_better lower_is_better : Direction

unfoldable pub metric_direction : Dict Direction
metric_direction =
    ("relevance", higher_is_better)
    ∷ ("faithfulness", higher_is_better)
    ∷ ("context_precision", higher_is_better)
    ∷ ("context_recall", higher_is_better)
    ∷ ("answer_relevancy", higher_is_better)
    ∷ ("citation_correctness", higher_is_better)
    ∷ ("hallucination_fraction_unsupported", lower_is_better)
    ∷ ("latency_ms", lower_is_better)
    ∷ ("estimated_cost", lower_is_better)
    ∷ ("composite_score", higher_is_better)
    ∷ ("llm_judge", higher_is_better)
    ∷ []

-- The dictionary that `hallucination_report` makes and that a run stores. A stored one may lack keys.
pub record Hallucination (F X : Type 0) : Type 0 where
  pub fraction_supported : Option F
  pub flags : Option X
  pub details : Option X

-- `if r.error`: an error that is not the empty text
abbrev pub is_error : Option String → Bool
is_error none = false
is_error (some e) = not (e == "")
