-- ===== src/Pipeline/Agree.antt =====
-- evaluator/pipeline.py against the evaluators of the registry.
use llm_evaluation_pipeline.Prelude.{
  ◌≡◌, refl, sym, ap, String, Option, none, some, List, true, false, is_empty, arith,
}
use llm_evaluation_pipeline.Number.{Float}
use llm_evaluation_pipeline.Metric.{Hallucination}
use llm_evaluation_pipeline.Models.{ConversationInput}
use llm_evaluation_pipeline.App.{Exception, Result, ok, raised}
use llm_evaluation_pipeline.Text.{is_text}
use llm_evaluation_pipeline.Worker.{PipelineResult}
use llm_evaluation_pipeline.Evaluators.{
  Sample, Details, Nli, ◌>>=◌, bind_assoc, make_result, caught,
}
use llm_evaluation_pipeline.Evaluators.Claims.{
  Report, hallucination_report, evaluate_hallucination, hallucination_of,
}
use llm_evaluation_pipeline.Evaluators.Similarity.{
  Embedder, relevance_score, relevance_of, evaluate_relevance,
}
use llm_evaluation_pipeline.Evaluators.Usage.{or_latency, measure_latency, estimate_cost}
use llm_evaluation_pipeline.Pipeline.{evaluate, stored_report}

module _ {F : Type 0} where
  -- the fraction that a report of the pipeline holds
  abbrev pub fraction_of : Option (Hallucination F (Details F)) → Option F
  fraction_of none = none
  fraction_of (some h) = h.fraction_supported

module _ {F E : Type 0} ⦃f : Float F⦄ (upper : String → String) (str : Exception → String)
    (get_model : Result (Embedder F E)) (nli : Nli F) (readings : List (F × F)) where
  -- with an answer and context, the evaluator scores by `relevance_score`
  relevance-relevance_score :
      (sample : Sample F)
      → is_text sample.answer ≡ true
      → is_empty sample.context ≡ false
      → evaluate_relevance str get_model sample
        ≡ caught "relevance" "1.0.0" str (
            relevance_score get_model sample.answer sample.context true >>= λ s.
            ok (relevance_of s))
  unfolding relevance_score evaluate_relevance
  relevance-relevance_score sample a c =
      rw (a, c) (ap (caught "relevance" "1.0.0" str) (sym (bind_assoc get_model _ _)))

  hallucination-hallucination_report :
      (sample : Sample F)
      → is_text sample.answer ≡ true
      → is_empty sample.context ≡ false
      → evaluate_hallucination upper str nli sample
        ≡ caught "hallucination" "1.0.0" str (
            hallucination_report upper nli sample.answer sample.context >>= λ r.
            ok (hallucination_of r))
  unfolding evaluate_hallucination
  hallucination-hallucination_report sample a c = rw (a, c) refl

  -- For an item with an answer and with context, what the pipeline of a job stores as relevance and as
  -- the supported fraction are the scores that the relevance and the hallucination evaluator give a
  -- sample with that answer and that context.
  pub evaluate-agrees :
      (sample : Sample F) (conversation : ConversationInput F) (r : PipelineResult F (Details F))
      → is_text sample.answer ≡ true
      → is_empty sample.context ≡ false
      → evaluate upper get_model nli readings
          (record conversation { model_response = sample.answer })
          sample.context
        ≡ ok r
      → (r.relevance ≡ some (evaluate_relevance str get_model sample).score)
        × (fraction_of r.hallucination ≡ some (evaluate_hallucination upper str nli sample).score)
  unfolding evaluate caught relevance_of hallucination_of make_result stored_report
  evaluate-agrees sample conversation r a c returned =
      rw (relevance-relevance_score sample a c, hallucination-hallucination_report sample a c)
        (go (relevance_score get_model sample.answer sample.context true)
          (hallucination_report upper nli sample.answer sample.context) returned)
    where
      go :
          (x : Result F) (y : Result (Report F))
          → (x >>= λ relevance. y >>= λ report. ok (record {
            relevance = some relevance;
            hallucination = some (stored_report report);
            latency_ms = or_latency conversation.latency_ms (some (measure_latency readings));
            estimated_cost =
                some (estimate_cost (record conversation { model_response = sample.answer }));
          }))
            ≡ ok r
          → (r.relevance
              ≡ some (caught "relevance" "1.0.0" str (x >>= λ s. ok (relevance_of s))).score)
            × (fraction_of r.hallucination
                ≡ some
                    (caught "hallucination" "1.0.0" str (y >>= λ r. ok (hallucination_of r))).score)
      go (ok x) (ok y) h = (ground arith, ground arith)
      go (ok x) (raised e) h = ground arith
      go (raised e) y h = ground arith
