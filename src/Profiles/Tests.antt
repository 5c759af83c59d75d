-- ===== src/Profiles/Tests.antt =====
-- Witnesses of the theorems on evaluator/profiles.py and evaluator/registry.py.
use llm_evaluation_pipeline.Prelude.{◌≡◌, refl, true, none, [], ◌∷◌, text_comparable}
use llm_evaluation_pipeline.Prelude.Int.{◌+ℤ◌}
use llm_evaluation_pipeline.Dict.{lookup}
use llm_evaluation_pipeline.Number.Fixed.{Fixed, fixed_float, sum, total}
use llm_evaluation_pipeline.Composite.{compute_composite}
use llm_evaluation_pipeline.Registry.{mentions}
use llm_evaluation_pipeline.Profiles.{rag, judge, profiles, get_profile, evaluate_with_profile}
use llm_evaluation_pipeline.Profiles.Examples.{tools, settings, asked}
use llm_evaluation_pipeline.Profiles.Names.{metrics_of, evaluate_with_profile-metrics}
use llm_evaluation_pipeline.Profiles.Missing.{lists, unsupported, compute_composite-unsupported}

evaluate_with_profile-metrics_example :
    metrics_of tools (evaluate_with_profile tools settings "judge" asked none).0
    ≡ "relevance" ∷ "hallucination" ∷ "latency" ∷ "cost" ∷ "faithfulness" ∷ "context_precision"
      ∷ "context_recall" ∷ "answer_relevancy" ∷ "citation_correctness" ∷ "llm_judge" ∷ []
unfolding get_profile profiles lookup mentions
evaluate_with_profile-metrics_example =
    evaluate_with_profile-metrics tools settings "judge" asked none judge refl

compute_composite-unsupported_example :
    lists unsupported
      (compute_composite
        (evaluate_with_profile tools settings "rag" asked none).0
        (rag {F = Fixed}).composite_weights).missing_metrics
    ≡ true
unfolding get_profile profiles lookup compute_composite sum total ◌+ℤ◌
compute_composite-unsupported_example =
    compute_composite-unsupported tools settings "rag" asked none rag refl refl
