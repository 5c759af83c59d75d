-- ===== src/Profiles/Examples.antt =====
-- Models and a sample at which the witnesses on profiles and on the service run.
use llm_evaluation_pipeline.Prelude.{none, some, [], ◌∷◌, ◌==◌, text_comparable, if◌then◌else◌}
use llm_evaluation_pipeline.Number.Fixed.{Fixed, fixed_float}
use llm_evaluation_pipeline.App.{ok, raised, value_error, json_error, evaluation_error}
use llm_evaluation_pipeline.Registry.{JudgeSettings}
use llm_evaluation_pipeline.Evaluators.{Sample}
use llm_evaluation_pipeline.Judge.{object, number}
use llm_evaluation_pipeline.Profiles.{Tools}

-- a classifier that cannot be loaded, and a provider that answers
abbrev pub tools : Tools Fixed (Unit {0})
tools = record {
  upper = λ s. s;
  str = λ e. "failed";
  get_model = ok (record { encode = λ s. ok tt; cos_sim = λ a b. ok (fixed_float.lit 5 1) });
  get_nli = raised (evaluation_error "no model");
  nli = λ s. ok (record { label = "ENTAILMENT"; score = fixed_float.lit 9 1 });
  providers = record {
    openai_api_key = "key";
    anthropic_api_key = "";
    openai = λ attempt key s prompt. ok (some "{}");
    anthropic = λ attempt key s prompt. raised value_error;
    elapsed = λ attempt. fixed_float.lit 900 0;
  };
  loads = λ s.
      if s == "{}" then ok (object (number (fixed_float.lit 4 0)) none none) else raised json_error;
  format = λ q a c. q;
  failed_after = λ n e. "failed";
  evaluator_not_found = λ name. name;
  profile_not_found = λ name. name;
}

abbrev pub settings : JudgeSettings Fixed
settings = record { provider = "openai"; model = "gpt-4o-mini"; temperature = fixed_float.lit 0 0 }

abbrev pub asked : Sample Fixed
asked = record {
  question = "Where is Paris?";
  answer = "In France";
  context = record { id = "c1"; text = "Paris is in France." } ∷ [];
  conversation = record {
    question = "Where is Paris?";
    model_response = "In France";
    input_tokens = 100;
    output_tokens = 20;
    latency_ms = none;
    reference_answer = "";
    citations = [];
  };
  citations = [];
  reference_answer = "";
  metadata_latency_ms = none;
}
