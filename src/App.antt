-- ===== src/App.antt =====
-- What a request handler or a worker task runs in: a database session, the shared stores behind it,
-- and exceptions. A session's changes are seen by its own queries and reach the database at `commit`
-- (app/db/session.py: autocommit and autoflush are off).
pub mod Rows
pub mod Hoare
pub mod Calls
pub mod Keeps
use llm_evaluation_pipeline.Prelude.{
  ℕ, zero, suc, String, ◌≡◌, Bool, true, false, Option, none, some, List, [], ◌∷◌, if◌then◌else◌,
  not, ◌&&◌,
}
use llm_evaluation_pipeline.Models.{Database}
use llm_evaluation_pipeline.Redis.{Redis, Json}

-- The exceptions that the handlers tell apart: an HTTPException with its status code, and others.
-- `redis_error` is a connection to the Redis server that fails or times out, `response_error` an error
-- that the server answers.
pub data Exception : Type 0 where
  http_exception : (status_code : ℕ) → Exception
  redis_error : Exception
  response_error : Exception
  database_error : Exception
  json_error : Exception
  attribute_error : Exception
  value_error : Exception
  busy_error : Exception
  evaluation_error : (text : String) → Exception

pub data Result (A : Type 0) : Type 0 where
  ok : A → Result A
  raised : Exception → Result A

-- The stores and one session: `stored` is what is committed, `view` what the session's queries see.
-- After a failed commit the session is `broken` until it is rolled back.
pub record World (F D R : Type 0) : Type 0 where
  pub view : Database F D
  pub stored : Database F D
  pub broken : Bool
  pub redis : R
  -- `datetime.now(timezone.utc)`
  pub clock : ℕ

-- What the program takes from elsewhere: the server, `json`, whether the database accepts the changes
-- of a commit (constraints, availability), the identifier that `uuid.uuid4()` draws, and `str(exc)`.
pub record Backend (F D R V : Type 0) : Type 0 where
  pub redis : Redis R V
  pub json : Json V
  pub accepts : Database F D → Database F D → Bool
  pub uuid4 : Database F D → ℕ
  pub str : Exception → String

abbrev pub Exec : Type 0 → Type 0 → Type 0 → Type 0 → Type 0
Exec F D R A = World F D R → Result A × World F D R

module _ {F D R A : Type 0} where
  abbrev pub pure : A → Exec F D R A
  pure a w = (ok a, w)

  abbrev pub raise : Exception → Exec F D R A
  raise e w = (raised e, w)

  abbrev pub gets : (World F D R → A) → Exec F D R A
  gets g w = (ok (g w), w)

module _ {F D R A B : Type 0} where
  infixl 5 ◌>>=◌ ◌>>◌
  -- what follows a step that returned
  abbrev pub proceed : (A → Exec F D R B) → Result A × World F D R → Result B × World F D R
  proceed k (ok a, w) = k a w
  proceed k (raised e, w) = (raised e, w)

  unfoldable pub ◌>>=◌ : Exec F D R A → (A → Exec F D R B) → Exec F D R B
  ◌>>=◌ m k w = proceed k (m w)

  abbrev pub ◌>>◌ : Exec F D R A → Exec F D R B → Exec F D R B
  m >> k = m >>= λ _. k

module _ {F D R A : Type 0} where
  abbrev pub handle : (Exception → Exec F D R A) → Result A × World F D R → Result A × World F D R
  handle h (ok a, w) = (ok a, w)
  handle h (raised e, w) = h e w

module _ {F D R : Type 0} where
  abbrev pub change_view : (Database F D → Database F D) → Exec F D R (Unit {0})
  change_view g w = (ok tt, record w { view = g w.view })

  -- `db.rollback()`
  unfoldable pub rollback : Exec F D R (Unit {0})
  rollback w = (ok tt, record w { view = w.stored; broken = false })

  -- `SessionLocal()` at the start and `db.close()` at the end of `get_db` and of a task: what was not
  -- committed is dropped
  unfoldable pub in_session : {A : Type 0} → Exec F D R A → Exec F D R A
  in_session m w =
      let (r, w') = m (record w { view = w.stored; broken = false }) in
      (r, record w' { view = w'.stored; broken = false })

  -- `try: … except Exception: …`
  unfoldable pub except : {A : Type 0} → Exec F D R A → (Exception → Exec F D R A) → Exec F D R A
  except m h w = handle h (m w)

  -- a query of a session whose transaction failed raises
  unfoldable pub query : {A : Type 0} → (Database F D → A) → Exec F D R A
  query g w = if w.broken then (raised database_error, w) else (ok (g w.view), w)

  -- a call of the Redis client that answers, or that writes
  unfoldable pub ask : {A : Type 0} → (R → Option A) → Exec F D R A
  ask g w = elim (g w.redis) [ none ↦ (raised redis_error, w) | some a ↦ (ok a, w) ]

  -- a call that writes and answers
  unfoldable pub call : {A : Type 0} → (R → Option (A × R)) → Exec F D R A
  call g w = elim (g w.redis) [
    | none ↦ (raised redis_error, w)
    | some (a, r) ↦ (ok a, record w { redis = r })
  ]

  unfoldable pub send : (R → Option R) → Exec F D R (Unit {0})
  send g w = elim (g w.redis) [
    | none ↦ (raised redis_error, w)
    | some r ↦ (ok tt, record w { redis = r })
  ]

module _ {F D R V : Type 0} (b : Backend F D R V) where
  -- `db.commit()`
  unfoldable pub commit : Exec F D R (Unit {0})
  commit w =
      if b.accepts w.stored w.view && not w.broken
      then (ok tt, record w { stored = w.view })
      else (raised database_error, record w { broken = true })

-- `s[:n]`
unfoldable pub prefix : ℕ → String → String
prefix zero s = ""
prefix (suc n) String.[] = ""
prefix (suc n) (String.◌∷◌ c s) = String.◌∷◌ c (prefix n s)
