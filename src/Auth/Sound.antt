-- ===== src/Auth/Sound.antt =====
-- What it takes to be authenticated.
use mathlib.Core.List.{Memᴰ}
use llm_evaluation_pipeline.Prelude.{
  ℕ, ◌≡◌, refl, sym, subst, ◌∙◌, ◌||◌, ◌&&◌, String, Bool, true, false, Option, none, some, List,
  [], ◌∷◌, first, ◌==◌, text_comparable, number_comparable, if◌then◌else◌, not, is_empty, arith,
}
use llm_evaluation_pipeline.Models.{Project, ApiKey}
use llm_evaluation_pipeline.App.{Exec, Backend, World, ok, ◌>>=◌, raise, query, http_exception}
use text.Mathlib.Text.{starts_with}
use llm_evaluation_pipeline.App.Rows.{both, first-Mem}
use llm_evaluation_pipeline.App.Hoare.{
  Outcome, Outcome-bind, Outcome-weaken, Returns, Returns-pure, Returns-raise, Returns-then,
  query-Outcome,
}
use llm_evaluation_pipeline.Settings.{Settings, Request}
use llm_evaluation_pipeline.Auth.{
  is_unexpired, is_valid_key, touch, project_of_key, get_project_from_key, require_project,
  authenticate_any, authenticate, candidates, is_strict, get_current_project, header_candidate,
  oldest, use_fallback,
}

-- The request carries the text of a key of the project, whose stored row is enabled and not expired.
pub record IsAuthorised (hash_api_key : String → String) (keys : List String) (time : ℕ)
    (rows : List ApiKey) (p : Project) : Type 0 where
  pub key : String
  pub presented : Memᴰ key keys
  pub row : ApiKey
  pub stored : Memᴰ row rows
  pub hashed : row.key_hash ≡ hash_api_key key
  pub enabled : row.enabled ≡ true
  pub unexpired : is_unexpired time row.expires_at ≡ true
  pub owner : row.project_id ≡ p.id

-- a row that a query finds
record IsFound (key_hash : String) (time : ℕ) (rows : List ApiKey) (k : ApiKey) : Type 0 where
  stored : Memᴰ k rows
  hashed : k.key_hash ≡ key_hash
  enabled : k.enabled ≡ true
  unexpired : is_unexpired time k.expires_at ≡ true

is_valid_key-IsFound :
    (key_hash : String) (time : ℕ) (rows : List ApiKey) (k : ApiKey)
    → first (is_valid_key key_hash time) rows ≡ some k
    → IsFound key_hash time rows k
unfolding is_valid_key
is_valid_key-IsFound key_hash time rows k e =
    let (m, valid) = first-Mem (is_valid_key key_hash time) rows k e in
    let (h, live) =
      both (k.key_hash == key_hash && k.enabled) (is_unexpired time k.expires_at) valid in
    let (same, on) = both (k.key_hash == key_hash) k.enabled h in
    record {
      stored = m;
      hashed = text_comparable.same_sound k.key_hash key_hash same;
      enabled = on;
      unexpired = live;
    }

-- what the lookup of a key answers
abbrev IsLookup : String → ℕ → List ApiKey → Option (Option Project × ApiKey) → Type 0
IsLookup key_hash time rows none = Unit
IsLookup key_hash time rows (some (project, k)) =
    IsFound key_hash time rows k × ((p : Project) → project ≡ some p → p.id ≡ k.project_id)

owner_found :
    (id : ℕ) (ps : List Project) (p : Project) → first (λ q. q.id == id) ps ≡ some p → p.id ≡ id
owner_found id ps p e = number_comparable.same_sound p.id id (first-Mem (λ q. q.id == id) ps p e).1

module _ {F D R V : Type 0} (b : Backend F D R V) where
  -- the world is left alone where the key is not known
  abbrev IsAnswer : String → World F D R → Option (Option Project × ApiKey) → World F D R → Type 0
  IsAnswer key_hash w none v = v ≡ w
  IsAnswer key_hash w (some found) v = IsLookup key_hash w.clock w.view.api_keys (some found)

  project_of_key-IsAnswer :
      (key_hash : String) (w : World F D R) (found : Option ApiKey)
      → first (is_valid_key key_hash w.clock) w.view.api_keys ≡ found
      → Outcome (IsAnswer key_hash w) (λ _. Unit) (project_of_key b w.clock found w)
  unfolding project_of_key
  project_of_key-IsAnswer key_hash w none e = refl
  project_of_key-IsAnswer key_hash w (some k) e =
      (Returns-then (IsAnswer key_hash w) (touch b w.clock k) _ λ _. record {
        value = λ v.
            Outcome-bind (λ a u. (a ≡ first (λ p. p.id == k.project_id) v.view.projects) × (u ≡ v))
              (IsAnswer key_hash w) (λ _. Unit) _ _ v (query-Outcome _ v)
              λ project u answered. (
                is_valid_key-IsFound key_hash w.clock w.view.api_keys k e,
                λ p found. owner_found k.project_id v.view.projects p (sym answered.0 ∙ found),
              );
      }).value
        w

  get_project_from_key-IsAnswer :
      (key_hash : String) (w : World F D R)
      → Outcome (IsAnswer key_hash w) (λ _. Unit) (get_project_from_key b key_hash w)
  unfolding get_project_from_key
  get_project_from_key-IsAnswer key_hash w =
      Outcome-bind (λ time v. (time ≡ w.clock) × (v ≡ w)) (IsAnswer key_hash w) (λ _. Unit) _ _ w
        (refl, refl)
        λ time v same.
          Outcome-bind
            (λ found u. (found ≡ first (is_valid_key key_hash time) v.view.api_keys) × (u ≡ v))
            (IsAnswer key_hash w) (λ _. Unit) _ _ v (query-Outcome _ v)
            λ found u answered.
              let found_here = sym (rw (same.0, same.1) at (answered.0)) in
              rw (same.0, answered.1, same.1) (project_of_key-IsAnswer key_hash w found found_here)

  require_project-Returns :
      (project : Option Project)
      → Returns {F = F} {D = D} {R = R} (require_project b project) (λ p _. project ≡ some p)
  unfolding require_project
  require_project-Returns none = Returns-raise _ _
  require_project-Returns (some p) = Returns-pure _ _ λ _. refl

  module _ (hash_api_key : String → String) where
    abbrev Authorised : List String → World F D R → Project → World F D R → Type 0
    Authorised keys w p v = IsAuthorised hash_api_key keys w.clock w.view.api_keys p

    authorised_of :
        (key : String) (keys : List String) (w : World F D R) (k : ApiKey) (p : Project)
        → IsFound (hash_api_key key) w.clock w.view.api_keys k
        → p.id ≡ k.project_id
        → IsAuthorised hash_api_key (key ∷ keys) w.clock w.view.api_keys p
    authorised_of key keys w k p f owner = record {
      key = key;
      presented = Memᴰ.head refl;
      row = k;
      stored = f.stored;
      hashed = f.hashed;
      enabled = f.enabled;
      unexpired = f.unexpired;
      owner = sym owner;
    }

    later :
        (key : String) (keys : List String) (time : ℕ) (rows : List ApiKey) (p : Project)
        → IsAuthorised hash_api_key keys time rows p
        → IsAuthorised hash_api_key (key ∷ keys) time rows p
    later key keys time rows p a = record {
      key = a.key;
      presented = Memᴰ.tail a.presented;
      row = a.row;
      stored = a.stored;
      hashed = a.hashed;
      enabled = a.enabled;
      unexpired = a.unexpired;
      owner = a.owner;
    }

    -- what the loop does with the answer for one key
    answer_sound :
        (key : String) (keys : List String) (w v : World F D R)
        (found : Option (Option Project × ApiKey))
        → IsAnswer (hash_api_key key) w found v
        → Outcome (Authorised keys w) (λ _. Unit) (authenticate_any b hash_api_key keys w)
        → Outcome
            (Authorised (key ∷ keys) w)
            (λ _. Unit)
            ((elim found as (λ x. Exec F D R Project) [
              | none ↦ authenticate_any b hash_api_key keys
              | some (project, k) ↦ require_project b project
            ])
              v)
    answer_sound key keys w v none h rest = rw h (
        Outcome-weaken (Authorised keys w) (Authorised (key ∷ keys) w) _
          (λ p u a. later key keys w.clock w.view.api_keys p a) rest)
    answer_sound key keys w v (some (project, k)) h rest =
        Outcome-weaken (λ p u. project ≡ some p) (Authorised (key ∷ keys) w)
          (require_project b project v) (λ p u e. authorised_of key keys w k p h.0 (h.1 p e))
          ((require_project-Returns project).value v)

    authenticate_any_sound :
        (keys : List String) (w : World F D R)
        → Outcome (Authorised keys w) (λ _. Unit) (authenticate_any b hash_api_key keys w)
    unfolding authenticate_any
    authenticate_any_sound [] w = tt
    authenticate_any_sound (key ∷ keys) w =
        Outcome-bind (IsAnswer (hash_api_key key) w) (Authorised (key ∷ keys) w) (λ _. Unit) _ _ w
          (get_project_from_key-IsAnswer (hash_api_key key) w)
          λ found v h. answer_sound key keys w v found h (authenticate_any_sound keys w)

    -- In production and in ci a request is given a project only if it presents, in one of the two
    -- headers, the text of a key of that project, whose hash is that of a stored row that is enabled
    -- and has not expired; whatever happens to the writes of `last_used_at` and whether or not the
    -- development fallback is configured.
    pub get_current_project_strict :
        (settings : Settings) (request : Request) (w v : World F D R) (p : Project)
        → is_strict settings ≡ true
        → get_current_project b hash_api_key settings request w ≡ (ok p, v)
        → IsAuthorised hash_api_key (candidates request) w.clock w.view.api_keys p
    unfolding get_current_project authenticate
    get_current_project_strict settings request w v p strict e =
        subst (Outcome (Authorised (candidates request) w) (λ _. Unit)) e (
          go
            (not (is_empty (header_candidate request.x_api_key))
              || starts_with request.authorization "Bearer ")
            (is_strict settings) strict)
      where
        go :
            (c s : Bool)
            → s ≡ true
            → Outcome
                (Authorised (candidates request) w)
                (λ _. Unit)
                ((if c
                    then authenticate_any b hash_api_key (candidates request)
                    else if s
                    then raise (http_exception 401)
                    else if settings.allow_dev_auth_fallback
                    then (query (λ db. oldest db.projects) >>= use_fallback b hash_api_key)
                    else raise (http_exception 401))
                  w)
        go true s e = authenticate_any_sound (candidates request) w
        go false true e = tt
        go false false e = ground arith
