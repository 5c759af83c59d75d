-- ===== src/Service/Answered.antt =====
-- When a request to app/api/routes/evaluations.py is answered with a run.
use llm_evaluation_pipeline.Prelude.{◌≡◌, true, false}
use llm_evaluation_pipeline.Models.{Database}
use llm_evaluation_pipeline.App.{Backend, World, Result}
use llm_evaluation_pipeline.App.Hoare.{Outcome}
use llm_evaluation_pipeline.Evaluators.{Details}
use llm_evaluation_pipeline.Service.{Reads}

module _ {F D R : Type 0} where
  -- the action returned, and the session goes on
  abbrev IsFine : {A : Type 0} → Result A × World F D R → Type 0
  IsFine o = Outcome (λ a v. v.broken ≡ false) (λ v. ⊥) o

-- every step of the database is answered
pub record IsServing {F R V : Type 0} (b : Backend F (Details F) R V) (reads : Reads F R)
    : Type 0 where
  pub accepts : (stored view : Database F (Details F)) → b.accepts stored view ≡ true
  pub refreshes : (w : World F (Details F) R) → reads.refreshes w ≡ true
  pub lists : (w : World F (Details F) R) → reads.lists w ≡ true
  pub builds : (w : World F (Details F) R) → reads.builds w ≡ true
