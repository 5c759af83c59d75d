-- ===== src/Profiles/Named/Scores.antt =====
-- The names of the results of the evaluators of claims, similarity and citations.
use llm_evaluation_pipeline.Prelude.{
  refl, String, Bool, List, [], ◌∷◌, text_comparable, number_comparable, take,
}
use llm_evaluation_pipeline.Number.{Float}
use llm_evaluation_pipeline.Models.{Citation}
use llm_evaluation_pipeline.App.{Exception, Result}
use llm_evaluation_pipeline.Text.{split_sentences}
use llm_evaluation_pipeline.Evaluators.{Sample, Nli, make_result}
use llm_evaluation_pipeline.Evaluators.Returned.{Returned, Returned-ok, Returned-bind, Returned-if}
use llm_evaluation_pipeline.Evaluators.Claims.{
  evaluate_faithfulness, evaluate_recall, evaluate_hallucination, check_faithfulness, check_recall,
  faithfulness_of, recall_of, hallucination_of,
}
use llm_evaluation_pipeline.Evaluators.Similarity.{
  score_chunks, score_sentences, Embedder, evaluate_relevance, evaluate_precision,
  evaluate_relevancy, relevance_of, precision_of, relevancy_of,
}
use llm_evaluation_pipeline.Evaluators.Citations.{evaluate_citations, citations_of}
use llm_evaluation_pipeline.Profiles.Named.{Named, named, caught-Named}

module _ {F E : Type 0} ⦃f : Float F⦄ (str : Exception → String) where
  pub evaluate_relevance-Named :
      (get_model : Result (Embedder F E)) (sample : Sample F)
      → Named "relevance" (evaluate_relevance str get_model sample)
  unfolding evaluate_relevance make_result relevance_of
  evaluate_relevance-Named get_model sample =
      Returned-if (Named {F = F} "relevance") _ _ _ (named _ _ refl) (
        caught-Named _ _ str _ (
          Returned-bind (Named {F = F} "relevance") get_model _ λ m.
            Returned-bind (Named {F = F} "relevance") _ _ λ s. Returned-ok _ _ (named _ _ refl)))

  pub evaluate_precision-Named :
      (get_model : Result (Embedder F E)) (sample : Sample F)
      → Named "context_precision" (evaluate_precision str get_model sample)
  unfolding evaluate_precision make_result precision_of
  evaluate_precision-Named get_model sample =
      Returned-if (Named {F = F} "context_precision") _ _ _ (named _ _ refl) (
        caught-Named _ _ str _ (
          Returned-bind (Named {F = F} "context_precision") get_model _ λ m.
            Returned-bind (Named {F = F} "context_precision") (m.encode sample.question) _ λ q.
              Returned-bind (Named {F = F} "context_precision") (score_chunks m q sample.context) _
                λ chunks. Returned-ok _ _ (named _ _ refl)))

  pub evaluate_relevancy-Named :
      (get_model : Result (Embedder F E)) (sample : Sample F)
      → Named "answer_relevancy" (evaluate_relevancy str get_model sample)
  unfolding evaluate_relevancy make_result relevancy_of
  evaluate_relevancy-Named get_model sample =
      Returned-if (Named {F = F} "answer_relevancy") _ _ _ (named _ _ refl) (
        caught-Named _ _ str _ (
          Returned-bind (Named {F = F} "answer_relevancy") get_model _ λ m.
            Returned-bind (Named {F = F} "answer_relevancy") (m.encode sample.question) _ λ q.
              Returned-bind (Named {F = F} "answer_relevancy") (m.encode sample.answer) _ λ a.
                Returned-bind (Named {F = F} "answer_relevancy") (m.cos_sim q a) _ λ c.
                  Returned-bind (Named {F = F} "answer_relevancy")
                    (score_sentences m q (take 5 (split_sentences sample.answer))) _
                    λ scores. Returned-ok _ _ (named _ _ refl)))

module _ {F : Type 0} ⦃f : Float F⦄ (upper : String → String) (str : Exception → String) where
  check_faithfulness-Named :
      (nli : Nli F) (premise : String) (ss : List String)
      → Returned (Named {F = F} "faithfulness") (check_faithfulness upper str nli premise ss)
  unfolding check_faithfulness faithfulness_of make_result
  check_faithfulness-Named nli premise [] = Returned-ok _ _ (named _ _ refl)
  check_faithfulness-Named nli premise (s ∷ ss) =
      Returned-bind (Named {F = F} "faithfulness") _ _ λ cs. Returned-ok _ _ (named _ _ refl)

  pub evaluate_faithfulness-Named :
      (get_nli : Result (Nli F)) (sample : Sample F)
      → Named "faithfulness" (evaluate_faithfulness upper str get_nli sample)
  unfolding evaluate_faithfulness make_result
  evaluate_faithfulness-Named get_nli sample =
      Returned-if (Named {F = F} "faithfulness") _ _ _ (named _ _ refl) (
        caught-Named _ _ str _ (
          Returned-bind (Named {F = F} "faithfulness") get_nli _
            λ nli. check_faithfulness-Named nli _ _))

  check_recall-Named :
      (nli : Nli F) (has_reference : Bool) (premise : String) (ss : List String)
      → Returned
          (Named {F = F} "context_recall")
          (check_recall upper str nli has_reference premise ss)
  unfolding check_recall recall_of make_result
  check_recall-Named nli has_reference premise [] = Returned-ok _ _ (named _ _ refl)
  check_recall-Named nli has_reference premise (s ∷ ss) =
      Returned-bind (Named {F = F} "context_recall") _ _ λ cs. Returned-ok _ _ (named _ _ refl)

  pub evaluate_recall-Named :
      (get_nli : Result (Nli F)) (sample : Sample F)
      → Named "context_recall" (evaluate_recall upper str get_nli sample)
  unfolding evaluate_recall make_result
  evaluate_recall-Named get_nli sample =
      Returned-if (Named {F = F} "context_recall") _ _ _ (named _ _ refl) (
        caught-Named _ _ str _ (
          Returned-bind (Named {F = F} "context_recall") get_nli _
            λ nli. check_recall-Named nli _ _ _))

  pub evaluate_hallucination-Named :
      (nli : Nli F) (sample : Sample F)
      → Named "hallucination" (evaluate_hallucination upper str nli sample)
  unfolding evaluate_hallucination make_result hallucination_of
  evaluate_hallucination-Named nli sample =
      Returned-if (Named {F = F} "hallucination") _ _ _ (named _ _ refl) (
        caught-Named _ _ str _
          (Returned-bind (Named {F = F} "hallucination") _ _ λ r. Returned-ok _ _ (named _ _ refl)))

  pub evaluate_citations-Named :
      (get_nli : Result (Nli F)) (sample : Sample F)
      → Named "citation_correctness" (evaluate_citations upper str get_nli sample)
  unfolding evaluate_citations make_result citations_of
  evaluate_citations-Named get_nli sample = go sample.citations
    where
      go :
          (cs : List Citation)
          → Named "citation_correctness"
              (evaluate_citations upper str get_nli (record sample { citations = cs }))
      go [] = named _ _ refl
      go (c ∷ cs) = caught-Named _ _ str _ (
          Returned-bind (Named {F = F} "citation_correctness") get_nli _
            λ nli. Returned-ok _ _ (named _ _ refl))
