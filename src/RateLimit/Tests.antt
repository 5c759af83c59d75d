-- ===== src/RateLimit/Tests.antt =====
-- Runs of the limiter on a server that holds one counter.
use llm_evaluation_pipeline.Prelude.{
  ℕ, zero, suc, ◌≡◌, refl, Bool, true, false, Option, none, some, [],
}
use llm_evaluation_pipeline.Prelude.Int.{pos}
use llm_evaluation_pipeline.Models.{Database}
use llm_evaluation_pipeline.Redis.{Redis, Json, rate_limit}
use llm_evaluation_pipeline.App.{Backend, World, ok, raised, http_exception, call, except, ◌>>=◌}
use llm_evaluation_pipeline.Settings.{Settings, Request}
use llm_evaluation_pipeline.RateLimit.{
  rate_limit_api, check_rate_limit, on_limiter_error, bucket_of, window_of, command,
}
use llm_evaluation_pipeline.RateLimit.Window.{IsCounter, admitted, admitted_exactly}

abbrev set_new_counter : ℕ → Option (Bool × ℕ)
set_new_counter zero = some (true, 1)
set_new_counter (suc n) = some (false, suc n)

abbrev server : Redis ℕ Unit
server = record {
  refuses = λ k s. false;
  get = λ k s. some none;
  set = λ k v ex s. some s;
  set_new = λ k n ex s. set_new_counter s;
  incr = λ k s. some (suc s, suc s);
  ttl = λ k s. some (some (pos 60));
  expire = λ k ex s. some s;
  rpush = λ k n s. some s;
  blpop = λ k t s. some (none, s);
  enqueue_job = λ n s. some s;
}

abbrev json : Json Unit
json = record {
  dumps_state = λ e. tt;
  loads_state = λ v. none;
  dumps_progress = λ e. tt;
  loads_progress = λ v. none;
}

abbrev backend : Backend ℕ Unit ℕ Unit
backend = record {
  redis = server;
  json = json;
  accepts = λ s v. true;
  uuid4 = λ db. 0;
  str = λ e. "";
}

abbrev database : Database ℕ Unit
database = record {
  projects = [];
  api_keys = [];
  evaluation_runs = [];
  metric_results = [];
  evaluation_jobs = [];
  quality_gates = [];
  evaluation_baselines = [];
}

abbrev world : World ℕ Unit ℕ
world = record { view = database; stored = database; broken = false; redis = 0; clock = 0 }

server-IsCounter : IsCounter server (rate_limit "api:1") (λ s. Unit) (λ s. s)
server-IsCounter = record {
  accepts = λ s up. refl;
  set_new-fresh = λ ex s up held. (1, (rw held refl, (tt, refl)));
  set_new-held = λ ex n s up held. (suc n, (rw held refl, (tt, refl)));
  incr-held = λ n s up held. (suc (suc n), (rw held refl, (tt, refl)));
  ttl_answers = λ s up. (some (pos 60), refl);
  expire_answers = λ ex n s up held. (s, (refl, (tt, held)));
}

-- five requests where three are allowed
admitted_exactly_example : (admitted backend "api:1" 3 60 5 world).0 ≡ ok 3
admitted_exactly_example =
    admitted_exactly backend "api:1" (λ s. Unit) (λ s. s) server-IsCounter 3 60 5 world tt refl

-- a server that cannot be reached
abbrev lost : Backend ℕ Unit ℕ Unit
lost = record backend { redis = record server { set_new = λ k n ex s. none } }

abbrev settings : Settings
settings = record {
  app_env = "production";
  rate_limit_requests = 3;
  rate_limit_window = 60;
  rate_limit_fail_closed = true;
  allow_dev_auth_fallback = false;
}

abbrev request : Request
request = record { authorization = ""; x_api_key = "k"; client_host = none }

fails_closed :
    (rate_limit_api lost settings request (some "1") world).0 ≡ raised (http_exception 503)
unfolding rate_limit_api check_rate_limit command on_limiter_error bucket_of window_of call except
    ◌>>=◌
fails_closed = refl
