-- ===== src/Settings.antt =====
-- app/core/config.py, as far as the handlers read it, and the parts of a request that they read.
use llm_evaluation_pipeline.Prelude.{ℕ, String, Bool, Option}

pub record Settings : Type 0 where
  pub app_env : String
  pub rate_limit_requests : ℕ
  -- whole seconds
  pub rate_limit_window : ℕ
  pub rate_limit_fail_closed : Bool
  pub allow_dev_auth_fallback : Bool

-- A header that is missing is the empty text.
pub record Request : Type 0 where
  pub authorization : String
  pub x_api_key : String
  pub client_host : Option String
