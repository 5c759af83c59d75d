-- ===== src/Evaluators/Claims/Tests.antt =====
-- Witnesses of the theorems on evaluator/faithfulness.py, evaluator/context_recall.py and
-- evaluator/hallucination.py.

use llm_evaluation_pipeline.Prelude.{
  ◌≡◌, refl, String, none, [], ◌∷◌, ◌==◌, text_comparable, if◌then◌else◌,
}
use llm_evaluation_pipeline.App.{Exception, ok, raised, value_error}
use llm_evaluation_pipeline.Evaluators.{Sample, Nli}
use llm_evaluation_pipeline.Evaluators.Claims.{
  evaluate_faithfulness, evaluate_recall, evaluate_hallucination,
}
use llm_evaluation_pipeline.Evaluators.Claims.Agree.{
  verdict, hallucination-faithfulness_agree, recall-faithfulness_agree,
}
use llm_evaluation_pipeline.Evaluators.Claims.Bounds.{scores-InRange}
use llm_evaluation_pipeline.Evaluators.Range.{InRange}
use llm_evaluation_pipeline.Evaluators.Range.Fixed.{Fixed-IsFraction}
use llm_evaluation_pipeline.Number.Fixed.{Fixed, fixed_float}

abbrev says : Exception → String
says e = "failed"

-- entails what is said of Paris
abbrev paris : Nli Fixed
paris s = ok (record {
  label = if s == "Paris is in France. </s></s> Paris is French" then "ENTAILMENT" else "NEUTRAL";
  score = fixed_float.lit 9 1;
})

abbrev trip : Sample Fixed
trip = record {
  question = "Where?";
  answer = "Paris is French. It rains";
  context = record { text = "Paris is in France."; id = "c1" } ∷ [];
  conversation = record {
    question = "Where?";
    model_response = "Paris is French. It rains";
    input_tokens = 0;
    output_tokens = 0;
    latency_ms = none;
    reference_answer = "";
    citations = [];
  };
  citations = [];
  reference_answer = "";
  metadata_latency_ms = none;
}

hallucination-faithfulness_agree_example :
    verdict (evaluate_hallucination (λ s. s) says paris trip)
    ≡ verdict (evaluate_faithfulness (λ s. s) says (ok paris) trip)
hallucination-faithfulness_agree_example =
    hallucination-faithfulness_agree (λ s. s) says paris refl trip

recall-faithfulness_agree_example :
    verdict (evaluate_recall (λ s. s) says (ok paris) trip)
    ≡ verdict (evaluate_faithfulness (λ s. s) says (ok paris) trip)
recall-faithfulness_agree_example = recall-faithfulness_agree (λ s. s) says paris trip refl

scores-InRange_example :
    InRange (evaluate_faithfulness (λ s. s) says (raised value_error) trip).score
    × (InRange (evaluate_recall (λ s. s) says (raised value_error) trip).score
        × InRange (evaluate_hallucination (λ s. s) says paris trip).score)
scores-InRange_example =
    scores-InRange Fixed-IsFraction (λ s. s) says (raised value_error) paris trip
