-- ===== src/RateLimit.antt =====
-- The rate limiter of app/api/deps.py.
pub mod Window
pub mod Failure
mod Tests
use llm_evaluation_pipeline.Prelude.{
  ℕ, String, Bool, true, false, Option, none, some, if◌then◌else◌, leb, ltb,
}
use llm_evaluation_pipeline.Prelude.Int.{ℤ, pos, negsuc}
use llm_evaluation_pipeline.Redis.{RedisKey, rate_limit}
use llm_evaluation_pipeline.App.{
  Exception, http_exception, redis_error, response_error, database_error, json_error,
  attribute_error, busy_error, value_error, evaluation_error, Exec, Backend, Result, ok, raised,
  pure, raise, ◌>>=◌, ◌>>◌, except, ask, call, send,
}
use llm_evaluation_pipeline.Settings.{Settings, Request}
use Prim.Native.String.{◌++◌}

-- `ttl is not None and ttl < 0`
unfoldable pub is_lost : Option ℤ → Bool
is_lost none = false
is_lost (some (pos n)) = false
is_lost (some (negsuc n)) = true

-- `max(1, int(window_seconds))`
unfoldable pub window_of : ℕ → ℕ
window_of seconds = if ltb 1 seconds then seconds else 1

-- `f"ip:{client_host}"` with "anonymous" where the client is not known
unfoldable pub client_key : Option String → String
client_key none = "ip:anonymous"
client_key (some host) = "ip:" ++ host

-- `if not key`: the project that authentication has set, or the address
unfoldable pub bucket_of : Option String → Request → String
bucket_of none request = client_key request.client_host
bucket_of (some String.[]) request = client_key request.client_host
bucket_of (some (String.◌∷◌ c s)) request = String.◌∷◌ c s

module _ {F D R V : Type 0} (b : Backend F D R V) where
  -- a command on a key, which the server may answer by an error
  unfoldable pub command : {A : Type 0} → RedisKey → Exec F D R A → Exec F D R A
  command key m w = if b.redis.refuses key w.redis then (raised response_error, w) else m w

  unfoldable pub rearm : RedisKey → ℕ → Option ℤ → Exec F D R (Unit {0})
  rearm key window t = if is_lost t then command key (send (b.redis.expire key window)) else pure tt

  -- what follows a SET NX that found the key
  unfoldable pub count_request : RedisKey → ℕ → ℕ → Exec F D R Bool
  count_request key max_requests window = do
    count ← command key (call (b.redis.incr key))
    t ← command key (ask (b.redis.ttl key))
    rearm key window t
    pure (leb count max_requests)

  unfoldable pub check_rate_limit : String → ℕ → ℕ → Exec F D R Bool
  check_rate_limit key max_requests window_seconds = do
    newly_set ←
        command (rate_limit key)
          (call (b.redis.set_new (rate_limit key) 1 (window_of window_seconds)))
    if newly_set
        then pure (leb 1 max_requests)
        else count_request (rate_limit key) max_requests (window_of window_seconds)

  -- the `except` of `rate_limit_api`, for connection errors only
  unfoldable pub on_limiter_error : Settings → Exception → Exec F D R Bool
  on_limiter_error settings redis_error =
      if settings.rate_limit_fail_closed then raise (http_exception 503) else pure true
  on_limiter_error settings response_error = raise response_error
  on_limiter_error settings (http_exception c) = raise (http_exception c)
  on_limiter_error settings database_error = raise database_error
  on_limiter_error settings json_error = raise json_error
  on_limiter_error settings attribute_error = raise attribute_error
  on_limiter_error settings busy_error = raise busy_error
  on_limiter_error settings value_error = raise value_error
  on_limiter_error settings (evaluation_error t) = raise (evaluation_error t)

  -- `project_id` is `request.state.project_id`
  unfoldable pub rate_limit_api : Settings → Request → Option String → Exec F D R (Unit {0})
  rate_limit_api settings request project_id = do
    allowed ←
        except
          (check_rate_limit ("api:" ++ bucket_of project_id request) settings.rate_limit_requests
            settings.rate_limit_window)
          (on_limiter_error settings)
    if allowed then pure tt else raise (http_exception 429)
