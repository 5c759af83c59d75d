-- ===== src/Judge/Tests.antt =====
-- Witnesses of the theorems on evaluator/judge.py.
use llm_evaluation_pipeline.Prelude.{
  ◌≡◌, refl, String, none, some, [], not, if◌then◌else◌, ◌==◌, text_comparable, number_comparable,
}
use llm_evaluation_pipeline.Number.Fixed.{Fixed, fixed_float}
use llm_evaluation_pipeline.App.{Result, ok, raised, json_error, evaluation_error}
use llm_evaluation_pipeline.Registry.{JudgeSettings}
use llm_evaluation_pipeline.Text.{is_text, after, starts_with}
use llm_evaluation_pipeline.Evaluators.{Sample}
use llm_evaluation_pipeline.Judge.{
  Reply, object, null, number, Providers, parse_response, unless_decoded, evaluate_judge,
  attempt_judge, prompt_of, no_answer,
}
use llm_evaluation_pipeline.Judge.Attempts.{
  first_result, last_error, outcomes, summary, evaluate_judge-summary,
}
use llm_evaluation_pipeline.Judge.Parse.{has_char, embed, object_text, parse_response-embed}

abbrev four : Reply Fixed
four = object (number (fixed_float.lit 4 0)) (some "\"good\"") none

abbrev loads : String → Result (Reply Fixed)
loads s = if s == "{\"score\": 4, \"reason\": \"good\"}" then ok four else raised json_error

-- a connection that fails once
abbrev flaky : Providers Fixed
flaky = record {
  openai_api_key = "key";
  anthropic_api_key = "";
  openai = λ attempt key s prompt.
      if attempt == 0
      then raised (evaluation_error "timeout")
      else ok (some "{\"score\": 4, \"reason\": \"good\"}");
  anthropic = λ attempt key s prompt. raised (evaluation_error "unused");
  elapsed = λ attempt. fixed_float.lit 900 0;
}

abbrev settings : JudgeSettings Fixed
settings = record { provider = "openai"; model = "gpt-4o-mini"; temperature = fixed_float.lit 0 0 }

abbrev asked : Sample Fixed
asked = record {
  question = "Where is Paris?";
  answer = "In France";
  context = [];
  conversation = record {
    question = "Where is Paris?";
    model_response = "In France";
    input_tokens = 0;
    output_tokens = 0;
    latency_ms = none;
    reference_answer = "";
    citations = [];
  };
  citations = [];
  reference_answer = "";
  metadata_latency_ms = none;
}

evaluate_judge-summary_example :
    evaluate_judge flaky loads (λ q a c. q) (λ n e. "failed") 3 settings asked ≡ (
      let os = outcomes (attempt_judge flaky loads settings (prompt_of (λ q a c. q) asked)) 0 3 in
      if not (is_text asked.answer)
      then no_answer
      else summary (λ e. "failed") (first_result os) (last_error os))
evaluate_judge-summary_example =
    evaluate_judge-summary flaky loads (λ q a c. q) (λ n e. "failed") 3 settings asked

parse_response-embed_example :
    parse_response loads (embed "Sure: " "\"score\": 4, \"reason\": \"good\"" " Anything else?")
    ≡ unless_decoded (loads (object_text "\"score\": 4, \"reason\": \"good\"")) (ok null)
unfolding after starts_with has_char
parse_response-embed_example =
    parse_response-embed loads "Sure: " "\"score\": 4, \"reason\": \"good\"" " Anything else?" refl
      refl refl refl
