-- ===== src/Auth/Keys.antt =====
-- The routes of projects and keys: app/api/routes/auth.py, with app/core/security.py.
pub mod Revoked
pub mod Fresh
use llm_evaluation_pipeline.Prelude.{
  ℕ, ◌+◌, ◌-◌, ◌*◌, ◌/◌, String, Bool, true, false, Option, none, some, List, [], ◌∷◌, ◌++◌, ◌&&◌,
  if◌then◌else◌, ◌==◌, number_comparable, text_comparable, first, leb, ltb, select, map,
}
use llm_evaluation_pipeline.Models.{Project, ApiKey, Database}
use llm_evaluation_pipeline.App.{
  http_exception, Exec, Backend, World, Result, ok, raised, pure, raise, gets, ◌>>=◌, ◌>>◌,
  change_view, query, commit, prefix,
}
use llm_evaluation_pipeline.Auth.Secret.{key_prefix}
use llm_evaluation_pipeline.App.Rows.{update}
use llm_evaluation_pipeline.Jobs.{now}

-- a day in microseconds
abbrev day : ℕ
day = 86400000000

-- `(expires_at - now).days + 1`, at least 1: `days` rounds down, also below 0
unfoldable pub remaining_days : ℕ → ℕ → ℕ
remaining_days expires time = if ltb time expires then (expires - time) / day + 1 else 1

unfoldable pub expiry : ℕ → Option ℕ → Option ℕ
expiry time none = none
expiry time (some days) = some (time + days * day)

-- the expiry that the new key inherits
unfoldable pub inherited : ℕ → Option ℕ → Option ℕ
inherited time none = none
inherited time (some expires) = some (remaining_days expires time)

module _ {F D R V : Type 0} (b : Backend F D R V) (hash_api_key : String → String)
    (generate_api_key : Database F D → String) where
  unfoldable pub create_project : String → String → Exec F D R Project
  create_project name description = do
    id ← gets (λ w. b.uuid4 w.view)
    created ← now
    let project : Project = record {
      id = id;
      created_at = created;
      name = name;
      description = description;
    }
    change_view (λ db. record db { projects = db.projects ++ project ∷ [] })
    commit b
    pure project

  unfoldable pub find_project : ℕ → Exec F D R (Option Project)
  find_project id = query λ db. first (λ p. p.id == id) db.projects

  unfoldable pub get_project : ℕ → Exec F D R Project
  get_project id = find_project id >>= λ found. elim found [
    | none ↦ raise (http_exception 404)
    | some p ↦ pure p
  ]

  -- `_create_key_record`: the row, and the text that is shown once
  unfoldable pub create_key_record : ℕ → String → Option ℕ → Exec F D R (ApiKey × String)
  create_key_record project_id name expires_in_days = do
    plaintext_key ← gets (λ w. generate_api_key w.view)
    id ← gets (λ w. b.uuid4 w.view)
    created ← now
    let api_key : ApiKey = record {
      id = id;
      created_at = created;
      project_id = project_id;
      name = name;
      key_hash = hash_api_key plaintext_key;
      key_prefix = key_prefix plaintext_key;
      enabled = true;
      last_used_at = none;
      expires_at = expiry created expires_in_days;
    }
    change_view (λ db. record db { api_keys = db.api_keys ++ api_key ∷ [] })
    commit b
    pure (api_key, plaintext_key)

  unfoldable pub create_api_key : ℕ → String → Option ℕ → Exec F D R (ApiKey × String)
  create_api_key project_id name expires_in_days = do
    project ← get_project project_id
    create_key_record project_id name expires_in_days

  -- the key of a project, or 404
  unfoldable pub find_key : ℕ → ℕ → Exec F D R ApiKey
  find_key project_id key_id =
      query (λ db. first (λ k. (k.id == key_id) && (k.project_id == project_id)) db.api_keys)
      >>= λ found. elim found [ none ↦ raise (http_exception 404) | some k ↦ pure k ]

  unfoldable pub disable : ℕ → Exec F D R (Unit {0})
  disable key_id = do
    change_view (λ db. record db {
      api_keys = update (λ k. k.id == key_id) (λ k. record k { enabled = false }) db.api_keys;
    })
    commit b

  unfoldable pub rotate_api_key : ℕ → ℕ → Exec F D R (ApiKey × String)
  rotate_api_key project_id key_id = do
    api_key ← find_key project_id key_id
    time ← now
    replacement ← create_key_record project_id api_key.name (inherited time api_key.expires_at)
    disable key_id
    pure replacement

  unfoldable pub revoke_api_key : ℕ → ℕ → Exec F D R (Unit {0})
  revoke_api_key project_id key_id = do api_key ← find_key project_id key_id; disable key_id
