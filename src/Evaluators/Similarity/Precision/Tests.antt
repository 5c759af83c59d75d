-- ===== src/Evaluators/Similarity/Precision/Tests.antt =====
-- A witness of the theorem on evaluator/context_precision.py.
use llm_evaluation_pipeline.Prelude.{none, [], ◌∷◌, ◌==◌, text_comparable, if◌then◌else◌}
use llm_evaluation_pipeline.Number.Fixed.{Fixed, fixed_float}
use llm_evaluation_pipeline.App.{ok}
use llm_evaluation_pipeline.Evaluators.{Sample}
use llm_evaluation_pipeline.Evaluators.Range.{InRange}
use llm_evaluation_pipeline.Evaluators.Range.Fixed.{Fixed-IsFraction}
use llm_evaluation_pipeline.Evaluators.Similarity.{Embedder, evaluate_precision}
use llm_evaluation_pipeline.Evaluators.Similarity.Precision.{evaluate_precision-InRange}

-- one text is unlike all others
abbrev embedder : Embedder Fixed Fixed
embedder = record {
  encode = λ s. ok (if s == "Bananas" then fixed_float.lit 0 0 else fixed_float.lit 8 1);
  cos_sim = λ a b. ok b;
}

abbrev asked : Sample Fixed
asked = record {
  question = "Where is Paris?";
  answer = "In France";
  context =
      record { id = "c1"; text = "Paris is in France." }
      ∷ record { id = "c2"; text = "" }
      ∷ record { id = "c3"; text = "Bananas" }
      ∷ [];
  conversation = record {
    question = "Where is Paris?";
    model_response = "In France";
    input_tokens = 0;
    output_tokens = 0;
    latency_ms = none;
    reference_answer = "";
    citations = [];
  };
  citations = [];
  reference_answer = "";
  metadata_latency_ms = none;
}

evaluate_precision-InRange_example :
    InRange (evaluate_precision (λ e. "failed") (ok embedder) asked).score
evaluate_precision-InRange_example =
    evaluate_precision-InRange Fixed-IsFraction (λ e. "failed") (ok embedder) asked
