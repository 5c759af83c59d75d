-- ===== src/Auth/Listings.antt =====
-- The lists of app/api/routes/auth.py: `list_projects` and `list_api_keys`.
pub mod Listed
use Prim.Native.String.{◌++◌}
use llm_evaluation_pipeline.Prelude.{
  ℕ, String, Bool, Option, none, List, map, select, ◌==◌, number_comparable, text_comparable,
  if◌then◌else◌,
}
use llm_evaluation_pipeline.Models.{Project, ApiKey, Database}
use llm_evaluation_pipeline.App.{Exec, Backend, prefix, pure, query, ◌>>=◌}
use llm_evaluation_pipeline.Store.{newest_first}
use llm_evaluation_pipeline.Auth.Keys.{get_project}

pub record ProjectResponse : Type 0 where
  pub id : ℕ
  pub name : String
  pub description : String
  pub created_at : ℕ

pub record ApiKeyResponse : Type 0 where
  pub id : ℕ
  pub name : String
  pub key : Option String
  pub key_prefix : String
  pub enabled : Bool
  pub created_at : ℕ
  pub expires_at : Option ℕ

unfoldable pub project_response : Project → ProjectResponse
project_response p = record {
  id = p.id;
  name = p.name;
  description = p.description;
  created_at = p.created_at;
}

-- `k.key_prefix or k.key_hash[:10] + "..."`
unfoldable pub shown_prefix : ApiKey → String
shown_prefix k = if k.key_prefix == "" then prefix 10 k.key_hash ++ "..." else k.key_prefix

unfoldable pub listed_key : ApiKey → ApiKeyResponse
listed_key k = record {
  id = k.id;
  name = k.name;
  key = none;
  key_prefix = shown_prefix k;
  enabled = k.enabled;
  created_at = k.created_at;
  expires_at = k.expires_at;
}

module _ {F D R V : Type 0} (b : Backend F D R V) (hash_api_key : String → String)
    (generate_api_key : Database F D → String) where
  unfoldable pub list_projects : Exec F D R (List ProjectResponse)
  list_projects = do
    projects ← query λ db. newest_first (λ p. p.created_at) db.projects
    pure (map project_response projects)

  unfoldable pub list_api_keys : ℕ → Exec F D R (List ApiKeyResponse)
  list_api_keys project_id = do
    project ← get_project b hash_api_key generate_api_key project_id
    keys ← query λ db.
        newest_first (λ k. k.created_at) (select (λ k. k.project_id == project_id) db.api_keys)
    pure (map listed_key keys)
