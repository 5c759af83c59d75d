-- ===== src/Auth/Tests.antt =====
-- Requests with one project and two keys; the hash of a text is the text.
use mathlib.Core.List.{Memᴰ}
use llm_evaluation_pipeline.Prelude.{
  All, ℕ, ◌≡◌, ◌≢◌, refl, String, Bool, true, false, none, some, [], ◌∷◌,
}
use llm_evaluation_pipeline.Models.{Project, ApiKey, Database}
use llm_evaluation_pipeline.Redis.Memory.{Server, Text, memory, memory_json, empty_server}
use llm_evaluation_pipeline.App.{Backend, World, ok, query, commit, ◌>>=◌, prefix}
use llm_evaluation_pipeline.App.Rows.{update}
use llm_evaluation_pipeline.Settings.{Settings, Request}
use llm_evaluation_pipeline.Auth.{
  get_current_project, authenticate, authenticate_any, candidates, header_candidate, bearer,
  bearer_candidate, is_strict, is_valid_key, is_unexpired, is_stale, touch, project_of_key,
  get_project_from_key, require_project,
}
use llm_evaluation_pipeline.Auth.Sound.{IsAuthorised, get_current_project_strict}
use llm_evaluation_pipeline.Auth.Keys.{
  revoke_api_key, rotate_api_key, create_key_record, inherited, remaining_days, expiry, find_key,
  disable,
}
use llm_evaluation_pipeline.Auth.Secret.{key_prefix}
use llm_evaluation_pipeline.Auth.Keys.Revoked.{revoke_api_key-revokes, rotate_api_key-revokes}
use llm_evaluation_pipeline.Prelude.{List}
use llm_evaluation_pipeline.App.{in_session, rollback}
use llm_evaluation_pipeline.Store.{newest_first, insert_newest}
use llm_evaluation_pipeline.Auth.Keys.{create_api_key, get_project, find_project}
use llm_evaluation_pipeline.Auth.Listings.{ApiKeyResponse, listed_key, shown_prefix, list_api_keys}
use llm_evaluation_pipeline.Auth.Listings.Listed.{IsShown, create_api_key-list_api_keys}
use llm_evaluation_pipeline.Prelude.{number_comparable}

abbrev backend : Backend ℕ Unit Server Text
backend = record {
  redis = memory;
  json = memory_json;
  accepts = λ s v. true;
  uuid4 = λ db. 0;
  str = λ e. "";
}

abbrev hash : String → String
hash s = s

abbrev project : Project
project = record { id = 1; created_at = 0; name = "p"; description = "" }

abbrev key : ℕ → String → Bool → ApiKey
key id text enabled = record {
  id = id;
  created_at = 0;
  project_id = 1;
  name = "k";
  key_hash = text;
  key_prefix = "";
  enabled = enabled;
  last_used_at = some 0;
  expires_at = some 100;
}

abbrev database : Bool → Database ℕ Unit
database enabled = record {
  projects = project ∷ [];
  api_keys = key 8 "a" true ∷ key 9 "b" enabled ∷ [];
  evaluation_runs = [];
  metric_results = [];
  evaluation_jobs = [];
  quality_gates = [];
  evaluation_baselines = [];
}

abbrev world : Bool → World ℕ Unit Server
world enabled = record {
  view = database enabled;
  stored = database enabled;
  broken = false;
  redis = empty_server;
  clock = 5;
}

abbrev production : Settings
production = record {
  app_env = "production";
  rate_limit_requests = 100;
  rate_limit_window = 60;
  rate_limit_fail_closed = false;
  allow_dev_auth_fallback = true;
}

abbrev request : Request
request = record { authorization = "Bearer a"; x_api_key = ""; client_host = none }

authenticated :
    get_current_project backend hash production request (world true) ≡ (ok project, world true)
unfolding get_current_project authenticate authenticate_any candidates header_candidate bearer
    bearer_candidate is_valid_key is_unexpired is_stale touch project_of_key get_project_from_key
    require_project query ◌>>=◌
authenticated = refl

production-strict : is_strict production ≡ true
unfolding is_strict
production-strict = refl

get_current_project_strict_example :
    IsAuthorised hash (candidates request) 5 (database true).api_keys project
get_current_project_strict_example =
    get_current_project_strict backend hash production request (world true) (world true) project
      production-strict authenticated

revoked : revoke_api_key backend hash (λ db. "c") 1 9 (world true) ≡ (ok tt, world false)
unfolding revoke_api_key find_key disable query commit update ◌>>=◌
revoked = refl

other_key : IsAuthorised hash ("a" ∷ []) 5 (world false).stored.api_keys project
unfolding is_unexpired
other_key = record {
  key = "a";
  presented = Memᴰ.head refl;
  row = key 8 "a" true;
  stored = Memᴰ.head refl;
  hashed = refl;
  enabled = refl;
  unexpired = refl;
  owner = refl;
}

revoke_api_key-revokes_example : other_key.row.id ≢ 9
revoke_api_key-revokes_example =
    revoke_api_key-revokes backend hash (λ db. "c") 1 9 5 (world true) (world false) ("a" ∷ [])
      project other_key revoked

abbrev new_key : ApiKey
new_key = record {
  id = 0;
  created_at = 5;
  project_id = 1;
  name = "k";
  key_hash = "c";
  key_prefix = "c...";
  enabled = true;
  last_used_at = none;
  expires_at = some 86400000005;
}

abbrev rotated_database : Database ℕ Unit
rotated_database = record (database false) {
  api_keys = key 8 "a" true ∷ key 9 "b" false ∷ new_key ∷ [];
}

abbrev rotated_world : World ℕ Unit Server
rotated_world = record (world false) { view = rotated_database; stored = rotated_database }

rotated :
    rotate_api_key backend hash (λ db. "c") 1 9 (world true) ≡ (ok (new_key, "c"), rotated_world)
unfolding rotate_api_key find_key create_key_record inherited remaining_days expiry key_prefix
    prefix disable query commit update ◌>>=◌
rotated = refl

with_new_key : IsAuthorised hash ("c" ∷ []) 5 rotated_world.stored.api_keys project
unfolding is_unexpired
with_new_key = record {
  key = "c";
  presented = Memᴰ.head refl;
  row = new_key;
  stored = Memᴰ.tail (Memᴰ.tail (Memᴰ.head refl));
  hashed = refl;
  enabled = refl;
  unexpired = refl;
  owner = refl;
}

rotate_api_key-revokes_example : with_new_key.row.id ≢ 9
rotate_api_key-revokes_example =
    rotate_api_key-revokes backend hash (λ db. "c") 1 9 5 (world true) rotated_world ("c" ∷ [])
      project (new_key, "c") with_new_key rotated

abbrev created_database : Database ℕ Unit
created_database = record (database true) {
  api_keys = key 8 "a" true ∷ key 9 "b" true ∷ new_key ∷ [];
}

abbrev created_world : World ℕ Unit Server
created_world = record (world true) { view = created_database; stored = created_database }

created :
    in_session (create_api_key backend hash (λ db. "c") 1 "k" (some 1)) (world true)
    ≡ (ok (new_key, "c"), created_world)
unfolding in_session create_api_key get_project find_project create_key_record expiry key_prefix
    prefix query commit rollback ◌>>=◌
created = refl

abbrev listing : List ApiKeyResponse
listing = listed_key new_key ∷ listed_key (key 8 "a" true) ∷ listed_key (key 9 "b" true) ∷ []

listed :
    in_session (list_api_keys backend hash (λ db. "c") 1) created_world
    ≡ (ok listing, created_world)
unfolding in_session list_api_keys get_project find_project newest_first insert_newest listed_key
    shown_prefix query rollback ◌>>=◌
listed = refl

create_api_key-list_api_keys_example :
    ((r : ApiKeyResponse) × (Memᴰ r listing
        × IsShown backend hash (λ db. "c") "k" (new_key, "c") r))
    × All (λ r. r.key ≡ none) listing
create_api_key-list_api_keys_example =
    create_api_key-list_api_keys backend hash (λ db. "c") 1 "k" (some 1) (new_key, "c") listing
      (world true) created_world created_world created listed

abbrev next_request : Request
next_request = record { authorization = ""; x_api_key = "c"; client_host = none }
