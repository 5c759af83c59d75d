-- ===== src/Profiles/Named.antt =====
-- Every evaluator of evaluator/registry.py names its result after itself, errors included.
pub mod Scores
pub mod Usage
pub mod Created
use llm_evaluation_pipeline.Prelude.{◌≡◌, refl, String}
use llm_evaluation_pipeline.Number.{Float}
use llm_evaluation_pipeline.Metric.{MetricResult}
use llm_evaluation_pipeline.App.{Exception, Result}
use llm_evaluation_pipeline.Evaluators.{Details, error_result, caught}
use llm_evaluation_pipeline.Evaluators.Returned.{Returned, Returned-caught}

module _ {F : Type 0} where
  unfoldable pub Named : String → MetricResult F (Details F) → Type 0
  Named name m = m.metric ≡ name

  pub named : (name : String) (m : MetricResult F (Details F)) → m.metric ≡ name → Named name m
  unfolding Named
  named name m e = e

pub error_result-Named :
    (F : Type 0) ⦃f : Float F⦄ (name version e : String)
    → Named name (error_result {F = F} name version e)
unfolding error_result
error_result-Named F name version e = named _ _ refl

module _ {F : Type 0} ⦃f : Float F⦄ where
  pub caught-Named :
      (name version : String) (str : Exception → String) (r : Result (MetricResult F (Details F)))
      → Returned (Named name) r
      → Named name (caught name version str r)
  caught-Named name version str r =
      Returned-caught (Named name) name version str r (error_result-Named F name version)
