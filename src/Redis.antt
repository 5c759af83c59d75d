-- ===== src/Redis.antt =====
-- The Redis server and `json`, as app/services/redis_queue.py and app/api/deps.py call them. `R` is
-- what the server holds, its clock and its availability included, and `V` is the type of the texts
-- that it stores. A call that raises answers `none`: `redis.ConnectionError` or `TimeoutError`, and, but
-- for the rate limiter, `redis.ResponseError` too, which its callers treat alike. The rate limiter
-- tells the two apart, and `refuses` says where the server answers by an error.
pub mod Memory
use llm_evaluation_pipeline.Prelude.{
  ℕ, String, ◌≡◌, ◌≢◌, ◌<◌, ◌+◌, ◌⊎◌, Bool, true, false, Option, none, some,
}
use llm_evaluation_pipeline.Prelude.Int.{ℤ}
use llm_evaluation_pipeline.Models.{JobStatus}

-- JOB_QUEUE_KEY, JOB_STATE_KEY, JOB_PROGRESS_KEY and the keys of the rate limiter. The texts differ
-- in their prefixes.
pub data RedisKey : Type 0 where
  queue : RedisKey
  job_state : ℕ → RedisKey
  job_progress : ℕ → RedisKey
  rate_limit : String → RedisKey

-- `{"state": state, **extra}`
pub record StateEntry : Type 0 where
  pub state : JobStatus
  pub completed : Option ℕ
  pub failed : Option ℕ
  pub error : Option String

pub record ProgressEntry : Type 0 where
  pub total : ℕ
  pub completed : ℕ
  pub failed : ℕ

pub record Redis (R V : Type 0) : Type 0 where
  -- a command on the key is answered by an error: no memory, a read-only replica, a wrong type
  pub refuses : RedisKey → R → Bool
  -- a missing key, an expired one and an empty text all count as nothing
  pub get : RedisKey → R → Option (Option V)
  -- SET key value EX seconds
  pub set : RedisKey → V → ℕ → R → Option R
  -- SET key number EX seconds NX
  pub set_new : RedisKey → ℕ → ℕ → R → Option (Bool × R)
  pub incr : RedisKey → R → Option (ℕ × R)
  pub ttl : RedisKey → R → Option (Option ℤ)
  pub expire : RedisKey → ℕ → R → Option R
  pub rpush : RedisKey → ℕ → R → Option R
  -- BLPOP key timeout
  pub blpop : RedisKey → ℕ → R → Option (Option ℕ × R)
  -- `pool.enqueue_job("process_evaluation_job", job_id)` of arq
  pub enqueue_job : ℕ → R → Option R

-- `json.dumps` and `json.loads`; `none` is a text that cannot be read
pub record Json (V : Type 0) : Type 0 where
  pub dumps_state : StateEntry → V
  pub loads_state : V → Option StateEntry
  pub dumps_progress : ProgressEntry → V
  pub loads_progress : V → Option ProgressEntry

-- What the program relies on. After a SET that succeeded, a GET of the key finds the value, if it
-- reaches the server, and a GET of another key finds what it found before.
pub record IsRedis {R V : Type 0} (r : Redis R V) : Type 0 where
  pub get-set_self :
      (k : RedisKey) (v : V) (ex : ℕ) (s t : R)
      → r.set k v ex s ≡ some t
      → (r.get k t ≡ none) ⊎ (r.get k t ≡ some (some v))
  pub get-set_ne :
      (k j : RedisKey) (v : V) (ex : ℕ) (s t : R)
      → j ≢ k
      → r.set k v ex s ≡ some t
      → (r.get j t ≡ none) ⊎ (r.get j t ≡ r.get j s)

pub record IsJson {V : Type 0} (j : Json V) : Type 0 where
  pub loads-dumps_state : (e : StateEntry) → j.loads_state (j.dumps_state e) ≡ some e
  pub loads-dumps_progress : (e : ProgressEntry) → j.loads_progress (j.dumps_progress e) ≡ some e
