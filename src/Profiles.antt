-- ===== src/Profiles.antt =====
-- evaluator/profiles.py, and `_create_evaluator` and `evaluate_with_profile` of evaluator/registry.py.
pub mod Examples
pub mod Named
pub mod Names
pub mod Missing
mod Tests
use llm_evaluation_pipeline.Prelude.{
  ℕ, String, Bool, true, false, Option, none, some, List, [], ◌∷◌, if◌then◌else◌, ◌==◌,
  text_comparable,
}
use llm_evaluation_pipeline.Dict.{Dict, lookup}
use llm_evaluation_pipeline.Number.{Float}
use llm_evaluation_pipeline.Metric.{MetricResult}
use llm_evaluation_pipeline.App.{Exception, Result, ok, raised}
use llm_evaluation_pipeline.Registry.{JudgeSettings, JudgeConfig, Evaluator, run_evaluators}
use llm_evaluation_pipeline.Evaluators.{Sample, Details, no_details, Nli, error_result}
use llm_evaluation_pipeline.Evaluators.Claims.{
  evaluate_faithfulness, evaluate_recall, evaluate_hallucination,
}
use llm_evaluation_pipeline.Evaluators.Similarity.{
  Embedder, evaluate_relevance, evaluate_precision, evaluate_relevancy,
}
use llm_evaluation_pipeline.Evaluators.Citations.{evaluate_citations}
use llm_evaluation_pipeline.Evaluators.Usage.{evaluate_cost, evaluate_latency}
use llm_evaluation_pipeline.Judge.{Providers, Reply, evaluate_judge}

pub record EvalProfile (F : Type 0) : Type 0 where
  pub name : String
  pub description : String
  pub evaluators : List String
  pub use_judge : Bool
  pub composite_weights : Dict F

-- what `list_profiles` shows of a profile
pub record ProfileInfo : Type 0 where
  pub name : String
  pub description : String
  pub evaluators : List String

module _ {F : Type 0} ⦃f : Float F⦄ where
  abbrev pub basic : EvalProfile F
  basic = record {
    name = "basic";
    description = "Traditional metrics: relevance, hallucination, latency, cost";
    evaluators = "relevance" ∷ "hallucination" ∷ "latency" ∷ "cost" ∷ [];
    use_judge = false;
    composite_weights = [];
  }

  abbrev pub rag : EvalProfile F
  rag = record {
    name = "rag";
    description = "RAG evaluation: faithfulness, context precision/recall, answer relevancy";
    evaluators =
        "relevance" ∷ "hallucination" ∷ "latency" ∷ "cost" ∷ "faithfulness" ∷ "context_precision"
        ∷ "context_recall" ∷ "answer_relevancy" ∷ [];
    use_judge = false;
    composite_weights =
        ("relevance", f.lit 15 2)
        ∷ ("faithfulness", f.lit 25 2)
        ∷ ("context_precision", f.lit 15 2)
        ∷ ("context_recall", f.lit 15 2)
        ∷ ("answer_relevancy", f.lit 15 2)
        ∷ ("hallucination_fraction_unsupported", f.lit 15 2)
        ∷ [];
  }

  abbrev pub rag_strict : EvalProfile F
  rag_strict = record {
    name = "rag_strict";
    description = "Strict RAG evaluation with citation correctness";
    evaluators =
        "relevance" ∷ "hallucination" ∷ "latency" ∷ "cost" ∷ "faithfulness" ∷ "context_precision"
        ∷ "context_recall" ∷ "answer_relevancy" ∷ "citation_correctness" ∷ [];
    use_judge = false;
    composite_weights =
        ("relevance", f.lit 10 2)
        ∷ ("faithfulness", f.lit 20 2)
        ∷ ("context_precision", f.lit 15 2)
        ∷ ("context_recall", f.lit 15 2)
        ∷ ("answer_relevancy", f.lit 15 2)
        ∷ ("citation_correctness", f.lit 15 2)
        ∷ ("hallucination_fraction_unsupported", f.lit 10 2)
        ∷ [];
  }

  abbrev pub judge : EvalProfile F
  judge = record {
    name = "judge";
    description = "LLM judge evaluation with all RAG metrics";
    evaluators =
        "relevance" ∷ "hallucination" ∷ "latency" ∷ "cost" ∷ "faithfulness" ∷ "context_precision"
        ∷ "context_recall" ∷ "answer_relevancy" ∷ "citation_correctness" ∷ [];
    use_judge = true;
    composite_weights =
        ("relevance", f.lit 10 2)
        ∷ ("faithfulness", f.lit 15 2)
        ∷ ("context_precision", f.lit 10 2)
        ∷ ("context_recall", f.lit 10 2)
        ∷ ("answer_relevancy", f.lit 10 2)
        ∷ ("citation_correctness", f.lit 10 2)
        ∷ ("hallucination_fraction_unsupported", f.lit 10 2)
        ∷ ("llm_judge", f.lit 25 2)
        ∷ [];
  }

  unfoldable pub profiles : Dict (EvalProfile F)
  profiles = ("basic", basic) ∷ ("rag", rag) ∷ ("rag_strict", rag_strict) ∷ ("judge", judge) ∷ []

  unfoldable pub get_profile : String → Option (EvalProfile F)
  get_profile name = lookup name profiles

  unfoldable pub info_of : Dict (EvalProfile F) → Dict ProfileInfo
  info_of [] = []
  info_of ((name, p) ∷ ps) =
      (name, record { name = p.name; description = p.description; evaluators = p.evaluators })
      ∷ info_of ps

unfoldable pub list_profiles : (F : Type 0) ⦃f : Float F⦄ → Dict ProfileInfo
list_profiles F = info_of (profiles {F = F})

-- the models and the functions of the interpreter that the evaluators call
pub record Tools (F E : Type 0) : Type 0 where
  pub upper : String → String
  pub str : Exception → String
  pub get_model : Result (Embedder F E)
  pub get_nli : Result (Nli F)
  -- the classifier of evaluator/hallucination.py, loaded when the module is
  pub nli : Nli F
  pub providers : Providers F
  pub loads : String → Result (Reply F)
  pub format : String → String → String → String
  pub failed_after : ℕ → Exception → String
  -- `f"evaluator '{name}' not found"` and `f"profile '{name}' not found"`
  pub evaluator_not_found : String → String
  pub profile_not_found : String → String

module _ {F E : Type 0} ⦃f : Float F⦄ (t : Tools F E) where
  -- an evaluator that catches its own errors, by its `evaluate`
  abbrev pub plain :
      (Sample F → MetricResult F (Details F)) → Option (Evaluator F (Details F) (Sample F))
  plain evaluate = some (record { version = "1.0.0"; evaluate = λ s sample. ok (evaluate sample) })

  -- `_create_evaluator`; the judge is created with three retries
  unfoldable pub create_evaluator : String → Option (Evaluator F (Details F) (Sample F))
  create_evaluator name =
      if name == "relevance"
      then plain (evaluate_relevance t.str t.get_model)
      else (if name == "hallucination"
          then plain (evaluate_hallucination t.upper t.str t.nli)
          else (if name == "latency"
              then plain evaluate_latency
              else (if name == "cost"
                  then plain evaluate_cost
                  else (if name == "faithfulness"
                      then plain (evaluate_faithfulness t.upper t.str t.get_nli)
                      else (if name == "context_precision"
                          then plain (evaluate_precision t.str t.get_model)
                          else (if name == "context_recall"
                              then plain (evaluate_recall t.upper t.str t.get_nli)
                              else (if name == "answer_relevancy"
                                  then plain (evaluate_relevancy t.str t.get_model)
                                  else (if name == "citation_correctness"
                                      then plain (evaluate_citations t.upper t.str t.get_nli)
                                      else (if name == "llm_judge"
                                          then some (record {
                                            version = "1.0.0";
                                            evaluate = λ s sample. ok (
                                                evaluate_judge t.providers t.loads t.format
                                                  t.failed_after 3 s sample);
                                          })
                                          else none)))))))))

  unfoldable pub run_profile :
      JudgeSettings F
      → Sample F
      → Option (JudgeConfig F)
      → String
      → Option (EvalProfile F)
      → List (MetricResult F (Details F)) × JudgeSettings F
  run_profile s sample config name none =
      (error_result "error" "0.0.0" (t.profile_not_found name) ∷ [], s)
  run_profile s sample config name (some p) =
      run_evaluators create_evaluator no_details t.str t.evaluator_not_found s p.evaluators sample
        p.use_judge config

  -- the results, and the settings that the judge is left with
  unfoldable pub evaluate_with_profile :
      JudgeSettings F
      → String
      → Sample F
      → Option (JudgeConfig F)
      → List (MetricResult F (Details F)) × JudgeSettings F
  evaluate_with_profile s name sample config = run_profile s sample config name (get_profile name)
