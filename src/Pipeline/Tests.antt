-- ===== src/Pipeline/Tests.antt =====
-- A witness of the theorem on evaluator/pipeline.py.
use llm_evaluation_pipeline.Prelude.{◌≡◌, refl, some, none, [], ◌∷◌}
use llm_evaluation_pipeline.Number.Fixed.{
  Fixed, fixed_float, rounded, quotient, product, sum, total,
}
use llm_evaluation_pipeline.Prelude.Int.{◌*ℤ◌, ◌+ℤ◌, ◌-ℤ◌}
use llm_evaluation_pipeline.Models.{ConversationInput}
use llm_evaluation_pipeline.App.{ok}
use llm_evaluation_pipeline.Worker.{PipelineResult}
use llm_evaluation_pipeline.Text.{
  split_sentences, stripped, split_stops, replace_newlines, push, strip, strip_right, strip_left,
  is_space, keep, join,
}
use llm_evaluation_pipeline.Evaluators.{fraction, Sample, Nli, Details, flag_list, sentence_list}
use llm_evaluation_pipeline.Evaluators.Claims.{
  evaluate_hallucination, hallucination_report, report_sentences, report_of, label_sentences,
  add_label, is_entailment, is_contradiction,
}
use llm_evaluation_pipeline.Evaluators.Similarity.{
  normalized, Embedder, evaluate_relevance, relevance_score, similarity,
}
use llm_evaluation_pipeline.Evaluators.Usage.{durations, estimate_cost, or_latency, measure_latency}
use llm_evaluation_pipeline.Pipeline.{evaluate, stored_report}
use llm_evaluation_pipeline.Pipeline.Agree.{fraction_of, evaluate-agrees}

abbrev embedder : Embedder Fixed (Unit {0})
embedder = record { encode = λ s. ok tt; cos_sim = λ a b. ok (fixed_float.lit 5 1) }

abbrev entailed : Nli Fixed
entailed s = ok (record { label = "ENTAILMENT"; score = fixed_float.lit 9 1 })

abbrev talk : ConversationInput Fixed
talk = record {
  model_response = "Hi";
  question = "Hello?";
  input_tokens = 10;
  output_tokens = 2;
  latency_ms = some (fixed_float.lit 120 0);
  reference_answer = "";
  citations = [];
}

abbrev hello : Sample Fixed
hello = record {
  question = "Hello?";
  answer = "Hi";
  context = record { id = "c1"; text = "Hi there" } ∷ [];
  conversation = talk;
  citations = [];
  reference_answer = "";
  metadata_latency_ms = none;
}

abbrev evaluated : PipelineResult Fixed (Details Fixed)
evaluated = record {
  relevance = some (fixed_float.lit 75 2);
  hallucination = some (record {
    fraction_supported = some (fixed_float.lit 1 0);
    flags = some (flag_list []);
    details = some (
        sentence_list
          (record { sentence = "Hi"; label = "ENTAILMENT"; score = fixed_float.lit 9 1 } ∷ []));
  });
  latency_ms = some (fixed_float.lit 120 0);
  estimated_cost = some (fixed_float.lit 27 7);
}

evaluated_test : evaluate (λ s. s) (ok embedder) entailed [] talk hello.context ≡ ok evaluated
unfolding evaluate relevance_score similarity hallucination_report report_sentences split_sentences
    stripped split_stops replace_newlines push strip strip_right strip_left is_space keep report_of
    label_sentences normalized stored_report or_latency estimate_cost add_label is_contradiction
    is_entailment measure_latency durations fraction join rounded quotient product sum total ◌*ℤ◌
    ◌+ℤ◌ ◌-ℤ◌
evaluated_test = refl

evaluate-agrees_example :
    (evaluated.relevance ≡ some (evaluate_relevance (λ e. "failed") (ok embedder) hello).score)
    × (fraction_of evaluated.hallucination
        ≡ some (evaluate_hallucination (λ s. s) (λ e. "failed") entailed hello).score)
evaluate-agrees_example =
    evaluate-agrees (λ s. s) (λ e. "failed") (ok embedder) entailed [] hello talk evaluated refl
      refl evaluated_test
