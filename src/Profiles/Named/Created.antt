-- ===== src/Profiles/Named/Created.antt =====
-- The names of the results of what `_create_evaluator` makes.
use llm_evaluation_pipeline.Prelude.{
  ◌≡◌, refl, sym, String, Bool, true, false, Option, none, some, if◌then◌else◌, ◌==◌,
  text_comparable, number_comparable, subst,
}
use llm_evaluation_pipeline.Number.{Float}
use llm_evaluation_pipeline.Registry.{JudgeSettings, Evaluator}
use llm_evaluation_pipeline.Evaluators.{Sample, Details}
use llm_evaluation_pipeline.Evaluators.Returned.{Returned, Returned-ok}
use llm_evaluation_pipeline.Profiles.{Tools, create_evaluator}
use llm_evaluation_pipeline.Profiles.Named.{Named}
use llm_evaluation_pipeline.Profiles.Named.Scores.{
  evaluate_relevance-Named, evaluate_precision-Named, evaluate_relevancy-Named,
  evaluate_faithfulness-Named, evaluate_recall-Named, evaluate_hallucination-Named,
  evaluate_citations-Named,
}
use llm_evaluation_pipeline.Profiles.Named.Usage.{
  evaluate_latency-Named, evaluate_cost-Named, evaluate_judge-Named,
}

-- what an evaluator of this name returns is named so
abbrev pub IsNamed : {F : Type 0} → String → Option (Evaluator F (Details F) (Sample F)) → Type 0
IsNamed name none = Unit
IsNamed {F} name (some e) =
    (s : JudgeSettings F) (sample : Sample F) → Returned (Named name) (e.evaluate s sample)

module _ {F : Type 0} where
  choose-IsNamed :
      (name n : String) (x y : Option (Evaluator F (Details F) (Sample F)))
      → IsNamed n x
      → IsNamed name y
      → IsNamed name (if name == n then x else y)
  choose-IsNamed name n x y h k = go (name == n) refl
    where
      go : (b : Bool) → (name == n) ≡ b → IsNamed name (if b then x else y)
      go true e = subst (λ m. IsNamed m x) (sym (text_comparable.same_sound name n e)) h
      go false e = k

module _ {F E : Type 0} ⦃f : Float F⦄ (t : Tools F E) where
  pub create_evaluator-IsNamed : (name : String) → IsNamed name (create_evaluator t name)
  unfolding create_evaluator
  create_evaluator-IsNamed name =
      choose-IsNamed name "relevance" _ _
        (λ s x. Returned-ok _ _ (evaluate_relevance-Named t.str t.get_model x))
        (choose-IsNamed name "hallucination" _ _
          (λ s x. Returned-ok _ _ (evaluate_hallucination-Named t.upper t.str t.nli x))
          (choose-IsNamed name "latency" _ _ (λ s x. Returned-ok _ _ (evaluate_latency-Named x))
            (choose-IsNamed name "cost" _ _ (λ s x. Returned-ok _ _ (evaluate_cost-Named x))
              (choose-IsNamed name "faithfulness" _ _
                (λ s x. Returned-ok _ _ (evaluate_faithfulness-Named t.upper t.str t.get_nli x))
                (choose-IsNamed name "context_precision" _ _
                  (λ s x. Returned-ok _ _ (evaluate_precision-Named t.str t.get_model x))
                  (choose-IsNamed name "context_recall" _ _
                    (λ s x. Returned-ok _ _ (evaluate_recall-Named t.upper t.str t.get_nli x))
                    (choose-IsNamed name "answer_relevancy" _ _
                      (λ s x. Returned-ok _ _ (evaluate_relevancy-Named t.str t.get_model x))
                      (choose-IsNamed name "citation_correctness" _ _
                        (λ s x.
                          Returned-ok _ _ (evaluate_citations-Named t.upper t.str t.get_nli x))
                        (choose-IsNamed name "llm_judge" _ _
                          (λ s x. Returned-ok _ _ (
                            evaluate_judge-Named t.providers t.loads t.format t.failed_after 3 s x))
                          tt)))))))))
