-- ===== src/Routes.antt =====
-- The route handlers of app/api/routes, after the dependencies of a request were resolved.
pub mod Jobs
pub mod Runs
pub mod Owned
pub mod Reread
pub mod Cancelled
pub mod JobGate
mod Tests
use llm_evaluation_pipeline.Prelude.{Option, none, some, ℕ}
use llm_evaluation_pipeline.App.{Exec, http_exception, pure, raise}

module _ {F D R A : Type 0} where
  -- `if not row: raise HTTPException(status_code=404)`
  unfoldable pub or_404 : Option A → Exec F D R A
  or_404 none = raise (http_exception 404)
  or_404 (some a) = pure a
