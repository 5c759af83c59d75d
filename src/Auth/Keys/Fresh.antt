-- ===== src/Auth/Keys/Fresh.antt =====
-- A key that was created.
use llm_evaluation_pipeline.Prelude.{
  ℕ, ◌≡◌, String, true, false, some, List, [], ◌∷◌, ◌++◌, ◌==◌, number_comparable, first,
}
use llm_evaluation_pipeline.Models.{Project, ApiKey, Database}
use llm_evaluation_pipeline.App.{
  Exec, Backend, World, Result, ok, commit, except, rollback, change_view, ◌>>◌,
}
use llm_evaluation_pipeline.Settings.{Settings}

module _ {F D R V : Type 0} (b : Backend F D R V) where
  -- the session goes on, and the projects are those before
  abbrev IsTouched : World F D R → Result (Unit {0}) × World F D R → Type 0
  IsTouched w o = (o.0 ≡ ok tt) × (o.1.broken ≡ false) × (o.1.view.projects ≡ w.view.projects)

  -- a write of the keys, given up where it fails
  abbrev write_keys : (List ApiKey → List ApiKey) → Exec F D R (Unit {0})
  write_keys g =
      except (change_view (λ db. record db { api_keys = g db.api_keys }) >> commit b) λ e. rollback

module _ {F D R V : Type 0} (b : Backend F D R V) (hash_api_key : String → String)
    (generate_api_key : Database F D → String) where
  -- what a creation that was committed leaves behind
  record IsFresh (id : ℕ) (w : World F D R) (made : ApiKey × String) (v : World F D R)
      : Type 0 where
    keys : v.stored.api_keys ≡ w.view.api_keys ++ made.0 ∷ []
    projects : v.stored.projects ≡ w.view.projects
    enabled : made.0.enabled ≡ true
    hashed : made.0.key_hash ≡ hash_api_key made.1
    owned : made.0.project_id ≡ id
    owner : Project
    found : first (λ q. q.id == id) w.view.projects ≡ some owner
