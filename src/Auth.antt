-- ===== src/Auth.antt =====
-- The authentication of app/api/deps.py, and the keys of app/core/security.py and
-- app/api/routes/auth.py.
pub mod Secret
pub mod Keys
pub mod Listings
pub mod Sound
mod Tests
use Prim.Native.String.{len, slice}
use text.Mathlib.Text.{starts_with}
use llm_evaluation_pipeline.Prelude.{
  ℕ, ◌+◌, String, Bool, true, false, Option, none, some, List, [], ◌∷◌, ◌++◌, ◌&&◌, ◌||◌, not,
  if◌then◌else◌, ◌==◌, number_comparable, text_comparable, first, leb, ltb, is_empty,
}
use llm_evaluation_pipeline.Models.{Project, ApiKey, Database}
use llm_evaluation_pipeline.App.{
  Exception, http_exception, attribute_error, busy_error, value_error, redis_error, response_error,
  database_error, json_error, evaluation_error, Exec, Backend, World, Result, ok, raised, pure,
  raise, gets, ◌>>=◌, ◌>>◌, except, change_view, query, commit, rollback,
}
use llm_evaluation_pipeline.App.Rows.{update}
use llm_evaluation_pipeline.Jobs.{now}
use llm_evaluation_pipeline.Settings.{Settings, Request}

-- LAST_USED_UPDATE_INTERVAL, in microseconds
abbrev last_used_update_interval : ℕ
last_used_update_interval = 60000000

-- `auth[7:]` where `auth.startswith("Bearer ")`
unfoldable pub bearer : String → Option String
bearer auth = if starts_with auth "Bearer " then some (slice auth 7 (len auth)) else none

unfoldable pub bearer_candidate : Option String → List String
bearer_candidate none = []
bearer_candidate (some key) = key ∷ []

unfoldable pub header_candidate : String → List String
header_candidate String.[] = []
header_candidate (String.◌∷◌ c s) = String.◌∷◌ c s ∷ []

-- the credentials of a request, in the order in which they are tried
unfoldable pub candidates : Request → List String
candidates request =
    header_candidate request.x_api_key ++ bearer_candidate (bearer request.authorization)

-- `APP_ENV in ("production", "ci")`
unfoldable pub is_strict : Settings → Bool
is_strict settings = settings.app_env == "production" || settings.app_env == "ci"

-- `expires_at IS NULL OR expires_at > now`
unfoldable pub is_unexpired : ℕ → Option ℕ → Bool
is_unexpired time none = true
is_unexpired time (some t) = ltb time t

-- the filter on `ApiKey`
unfoldable pub is_valid_key : String → ℕ → ApiKey → Bool
is_valid_key key_hash time k =
    (k.key_hash == key_hash) && k.enabled && is_unexpired time k.expires_at

unfoldable pub is_stale : ℕ → Option ℕ → Bool
is_stale time none = true
is_stale time (some used) = leb (used + last_used_update_interval) time

-- `ORDER BY created_at ASC LIMIT 1`
unfoldable pub older : Project → Option Project → Option Project
older p none = some p
older p (some q) = if ltb q.created_at p.created_at then some q else some p

unfoldable pub oldest : List Project → Option Project
oldest [] = none
oldest (p ∷ ps) = older p (oldest ps)

module _ {F D R V : Type 0} (b : Backend F D R V) where
  -- the write of `last_used_at`, which is given up where it fails
  unfoldable pub touch : ℕ → ApiKey → Exec F D R (Unit {0})
  touch time k =
      if is_stale time k.last_used_at
      then except
          (do
            change_view (λ db. record db {
              api_keys =
                  update (λ j. j.id == k.id) (λ j. record j { last_used_at = some time })
                    db.api_keys;
            })
            commit b)
          (λ e. rollback)
      else pure tt

  -- `_get_project_from_key` after the key was found; the project is `none` where its row is missing
  unfoldable pub project_of_key : ℕ → Option ApiKey → Exec F D R (Option (Option Project × ApiKey))
  project_of_key time none = pure none
  project_of_key time (some k) = do
    touch time k
    project ← query (λ db. first (λ p. p.id == k.project_id) db.projects)
    pure (some (project, k))

  unfoldable pub get_project_from_key : String → Exec F D R (Option (Option Project × ApiKey))
  get_project_from_key key_hash = do
    time ← now
    found ← query (λ db. first (is_valid_key key_hash time) db.api_keys)
    project_of_key time found

  -- `str(project.id)` of a project that is None raises
  unfoldable pub require_project : Option Project → Exec F D R Project
  require_project none = raise attribute_error
  require_project (some p) = pure p

  module _ (hash_api_key : String → String) where
    -- the loop over the candidates; the rest is tried where the key is not known
    unfoldable pub authenticate_any : List String → Exec F D R Project
    authenticate_any [] = raise (http_exception 401)
    authenticate_any (key ∷ keys) = get_project_from_key (hash_api_key key) >>= λ found.
        elim found [ none ↦ authenticate_any keys | some (project, k) ↦ require_project project ]

    unfoldable pub authenticate : Request → Exec F D R Project
    authenticate request = authenticate_any (candidates request)

    unfoldable pub use_fallback : Option Project → Exec F D R Project
    use_fallback none = raise (http_exception 401)
    use_fallback (some p) = pure p

    -- The project that is returned is also the one whose identifier `request.state` gets.
    unfoldable pub get_current_project : Settings → Request → Exec F D R Project
    get_current_project settings request =
        if not (is_empty (header_candidate request.x_api_key))
          || starts_with request.authorization "Bearer "
        then authenticate request
        else if is_strict settings
        then raise (http_exception 401)
        else if settings.allow_dev_auth_fallback
        then (query (λ db. oldest db.projects) >>= use_fallback)
        else raise (http_exception 401)

    -- what `optional_auth` returns, and what it leaves in `request.state.project_id`
    unfoldable pub remember : Option Project → Exec F D R (Option Project × Option ℕ)
    remember none = pure (none, none)
    remember (some p) = pure (none, some p.id)

    unfoldable pub on_auth_error : Settings → Exception → Exec F D R (Option Project × Option ℕ)
    on_auth_error settings (http_exception c) =
        if is_strict settings
        then raise (http_exception c)
        else if settings.allow_dev_auth_fallback
        then (query (λ db. oldest db.projects) >>= remember)
        else pure (none, none)
    on_auth_error settings redis_error = raise redis_error
    on_auth_error settings response_error = raise response_error
    on_auth_error settings database_error = raise database_error
    on_auth_error settings json_error = raise json_error
    on_auth_error settings attribute_error = raise attribute_error
    on_auth_error settings busy_error = raise busy_error
    on_auth_error settings value_error = raise value_error
    on_auth_error settings (evaluation_error t) = raise (evaluation_error t)

    unfoldable pub optional_auth : Settings → Request → Exec F D R (Option Project × Option ℕ)
    optional_auth settings request =
        except (get_current_project settings request >>= λ p. pure (some p, some p.id))
          (on_auth_error settings)
