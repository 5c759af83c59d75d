-- ===== src/Evaluators.antt =====
-- evaluator/base.py, and what each evaluator reports. The models are parameters: the entailment
-- classifier `nli` of transformers, which may raise, and the embeddings of sentence_transformers.
pub mod Returned
pub mod Range
pub mod Claims
pub mod Similarity
pub mod Citations
pub mod Usage
use llm_evaluation_pipeline.Prelude.{
  ℕ, ◌≡◌, refl, String, Bool, true, false, Option, none, some, List, [], ◌∷◌, ◌||◌, if◌then◌else◌,
  ◌==◌, text_comparable, length,
}
use llm_evaluation_pipeline.Number.{Float, zero_float}
use llm_evaluation_pipeline.Metric.{MetricResult}
use llm_evaluation_pipeline.Models.{ContextChunk, Citation, ConversationInput}
use llm_evaluation_pipeline.App.{Exception, Result, ok, raised}

-- EvaluationSample; of `metadata` only the latency is read
pub record Sample (F : Type 0) : Type 0 where
  pub question : String
  pub answer : String
  pub context : List ContextChunk
  pub conversation : ConversationInput F
  pub citations : List Citation
  pub reference_answer : String
  pub metadata_latency_ms : Option F

-- `out[0]` of the classifier
pub record Label (F : Type 0) : Type 0 where
  pub label : String
  pub score : F

-- an entry of `claims`: `flag` is `supported` or `recalled`
pub record Claim (F : Type 0) : Type 0 where
  pub claim : String
  pub flag : Bool
  pub label : String
  pub confidence : F

-- an entry of `flags` of the hallucination report
pub record Flag : Type 0 where
  pub sentence : String
  pub label : String

pub record SentenceLabel (F : Type 0) : Type 0 where
  pub sentence : String
  pub label : String
  pub score : F

pub record ChunkScore (F : Type 0) : Type 0 where
  pub text : String
  pub score : F
  pub relevant : Bool

-- an entry of `citations`; one without a source has a reason and no label
pub record CitationCheck : Type 0 where
  pub source_id : String
  pub cited_text : String
  pub valid : Bool
  pub reason : Option String
  pub nli_label : Option String

-- the `details` of each evaluator, and the lists that a hallucination report stores
pub data Details (F : Type 0) : Type 0 where
  no_details : Details F
  faithfulness_details : (claims : List (Claim F)) (total supported : ℕ) → Details F
  recall_details :
      (claims_total claims_recalled : ℕ) (claims : Option (List (Claim F)))
      (has_reference : Option Bool)
      → Details F
  hallucination_details :
      (fraction_supported : F) (flags : Option (List Flag))
      (details : Option (List (SentenceLabel F)))
      → Details F
  relevancy_details :
      (question_answer_similarity : F) (hypothetical_scores : Option (List F)) → Details F
  precision_details :
      (chunks_total chunks_relevant : ℕ) (chunks : Option (List (ChunkScore F))) → Details F
  citation_details :
      (total valid invalid missing_source : ℕ) (citations : Option (List CitationCheck)) → Details F
  latency_details : (latency_ms : F) (note : Option String) → Details F
  cost_details : (estimated_cost : F) (input_tokens output_tokens : ℕ) → Details F
  judge_details :
      (raw_score : Option F) (reason criteria provider model : String) (latency_ms : F) → Details F
  judge_error : (error : String) → Details F
  flag_list : List Flag → Details F
  sentence_list : List (SentenceLabel F) → Details F

abbrev pub Nli : Type 0 → Type 0
Nli F = String → Result (Label F)

module _ {A B : Type 0} where
  infixl 5 ◌>>=◌
  -- what follows a call that returned
  abbrev pub ◌>>=◌ : Result A → (A → Result B) → Result B
  ok a >>= k = k a
  raised e >>= k = raised e

module _ {A B C : Type 0} where
  pub bind_assoc :
      (m : Result A) (k : A → Result B) (h : B → Result C)
      → ((m >>= k) >>= h) ≡ (m >>= λ a. k a >>= h)
  bind_assoc (ok a) k h = refl
  bind_assoc (raised e) k h = refl

module _ {F : Type 0} ⦃f : Float F⦄ where
  -- `_make_result`
  unfoldable pub make_result : String → String → F → Bool → Details F → MetricResult F (Details F)
  make_result name version score passed details = record {
    metric = name;
    score = score;
    evaluator_version = version;
    passed = some passed;
    details = details;
    error = none;
  }

  -- `_error_result`
  unfoldable pub error_result : String → String → String → MetricResult F (Details F)
  error_result name version error = record {
    metric = name;
    score = zero_float;
    evaluator_version = version;
    passed = some false;
    details = no_details;
    error = some error;
  }

  -- `round(k / n, 4)`
  unfoldable pub fraction : ℕ → ℕ → F
  fraction k n = f.round (f.div (f.lit k 0) (f.lit n 0)) 4

  -- `except Exception as exc: return self._error_result(str(exc))`
  unfoldable pub caught :
      String
      → String
      → (Exception → String)
      → Result (MetricResult F (Details F))
      → MetricResult F (Details F)
  caught name version str (ok r) = r
  caught name version str (raised e) = error_result name version (str e)

abbrev pub texts : List ContextChunk → List String
texts [] = []
texts (c ∷ cs) = c.text ∷ texts cs
