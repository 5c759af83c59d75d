-- ===== src/Pipeline.antt =====
-- evaluator/pipeline.py: the evaluation of one item of a job.
pub mod Agree
mod Tests
use llm_evaluation_pipeline.Prelude.{
  ℕ, String, Option, none, some, List, [], ◌∷◌, Bool, true, false,
}
use llm_evaluation_pipeline.Number.{Float, zero_float}
use llm_evaluation_pipeline.Metric.{Hallucination}
use llm_evaluation_pipeline.Models.{ContextChunk, ConversationInput}
use llm_evaluation_pipeline.App.{Exception, Result, ok, raised}
use llm_evaluation_pipeline.Worker.{PipelineResult}
use llm_evaluation_pipeline.Evaluators.{Details, flag_list, sentence_list, Nli, ◌>>=◌}
use llm_evaluation_pipeline.Evaluators.Claims.{Report, hallucination_report}
use llm_evaluation_pipeline.Evaluators.Similarity.{Embedder, relevance_score}
use llm_evaluation_pipeline.Evaluators.Usage.{estimate_cost, or_latency, measure_latency}

module _ {F : Type 0} where
  -- the report as a dictionary, every key present
  unfoldable pub stored_report : Report F → Hallucination F (Details F)
  stored_report r = record {
    fraction_supported = some r.fraction_supported;
    flags = some (flag_list r.flags);
    details = some (sentence_list r.details);
  }

module _ {F E : Type 0} ⦃f : Float F⦄ where
  -- `EvaluationPipeline.evaluate`; `context` is the dictionary with the key "chunks", and `readings` are
  -- those of the clock around the three runs of `measure_latency`
  unfoldable pub evaluate :
      (String → String)
      → Result (Embedder F E)
      → Nli F
      → List (F × F)
      → ConversationInput F
      → List ContextChunk
      → Result (PipelineResult F (Details F))
  evaluate upper get_model nli readings conversation chunks =
      relevance_score get_model conversation.model_response chunks true >>= λ relevance.
      hallucination_report upper nli conversation.model_response chunks >>= λ report. ok (record {
        relevance = some relevance;
        hallucination = some (stored_report report);
        latency_ms = or_latency conversation.latency_ms (some (measure_latency readings));
        estimated_cost = some (estimate_cost conversation);
      })
