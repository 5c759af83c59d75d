-- ===== src/RateLimit/Failure.antt =====
-- What the limiter answers, also where Redis cannot be reached.
use llm_evaluation_pipeline.Prelude.{◌≡◌, String, Bool, true, false, if◌then◌else◌}
use llm_evaluation_pipeline.Redis.{RedisKey}
use llm_evaluation_pipeline.App.{
  http_exception, redis_error, response_error, database_error, json_error, attribute_error,
  busy_error, value_error, evaluation_error, Backend, World, Result, ok, raised,
}
use llm_evaluation_pipeline.Settings.{Settings}

module _ {F D R V A : Type 0} (b : Backend F D R V) (key : RedisKey) where
  -- nothing is raised but an error of the connection, or that of a server that refuses a command
  abbrev IsReached : Result A × World F D R → Type 0
  IsReached (ok a, w) = Unit
  IsReached (raised response_error, w) = b.redis.refuses key w.redis ≡ true
  IsReached (raised redis_error, w) = Unit
  IsReached (raised (http_exception c), w) = ⊥
  IsReached (raised database_error, w) = ⊥
  IsReached (raised json_error, w) = ⊥
  IsReached (raised attribute_error, w) = ⊥
  IsReached (raised busy_error, w) = ⊥
  IsReached (raised value_error, w) = ⊥
  IsReached (raised (evaluation_error t), w) = ⊥

module _ {F D R V : Type 0} (b : Backend F D R V) where
  -- what the limiter makes of the outcome of its check, which is a decision, an error of the connection
  -- or a refused command
  abbrev pub IsAnswered :
      RedisKey → Settings → Result Bool × World F D R → Result (Unit {0}) → Type 0
  IsAnswered key settings (ok true, w) r = r ≡ ok tt
  IsAnswered key settings (ok false, w) r = r ≡ raised (http_exception 429)
  IsAnswered key settings (raised redis_error, w) r =
      r ≡ (if settings.rate_limit_fail_closed then raised (http_exception 503) else ok tt)
  IsAnswered key settings (raised response_error, w) r =
      (r ≡ raised response_error) × (b.redis.refuses key w.redis ≡ true)
  IsAnswered key settings (raised (http_exception c), w) r = ⊥
  IsAnswered key settings (raised database_error, w) r = ⊥
  IsAnswered key settings (raised json_error, w) r = ⊥
  IsAnswered key settings (raised attribute_error, w) r = ⊥
  IsAnswered key settings (raised busy_error, w) r = ⊥
  IsAnswered key settings (raised value_error, w) r = ⊥
  IsAnswered key settings (raised (evaluation_error t), w) r = ⊥
