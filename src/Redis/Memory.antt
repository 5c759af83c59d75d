-- ===== src/Redis/Memory.antt =====
-- A server in memory, with a clock and a switch: the interface of `Redis` can be met, and tests run.
use llm_evaluation_pipeline.Prelude.{
  ℕ, ◌+◌, ◌-◌, ◌≡◌, ◌≢◌, refl, ap, ◌⊎◌, Bool, true, false, ◌&&◌, Option, none, some, List, [], ◌∷◌,
  ◌++◌, arith, ltb, ◌==◌, number_comparable, text_comparable, if◌then◌else◌, eq_self,
}
use text.Mathlib.TextEquality.{eq_iff}
use llm_evaluation_pipeline.Prelude.Int.{pos, negsuc}
use llm_evaluation_pipeline.Redis.{
  RedisKey, queue, job_state, job_progress, rate_limit, StateEntry, ProgressEntry, Redis, Json,
  IsRedis, IsJson,
}

pub data Text : Type 0 where
  state_text : StateEntry → Text
  progress_text : ProgressEntry → Text
  number_text : ℕ → Text

-- an entry and when it expires
pub record Entry : Type 0 where
  pub value : Text
  pub expires : Option ℕ

pub record Server : Type 0 where
  pub up : Bool
  pub now : ℕ
  pub entries : RedisKey → Option Entry
  pub jobs : List ℕ
  pub tasks : List ℕ

unfoldable pub same_key : RedisKey → RedisKey → Bool
same_key queue queue = true
same_key (job_state a) (job_state b) = a == b
same_key (job_progress a) (job_progress b) = a == b
same_key (rate_limit a) (rate_limit b) = a == b
same_key _ _ = false

same_key_sound : (j k : RedisKey) → same_key j k ≡ true → j ≡ k
unfolding same_key
same_key_sound queue queue h = refl
same_key_sound (job_state a) (job_state b) h = ground arith
same_key_sound (job_progress a) (job_progress b) h = ground arith
same_key_sound (rate_limit a) (rate_limit b) h = ap rate_limit ((eq_iff a b).0 h)
same_key_sound queue (job_state b) h = cc
same_key_sound _ _ h = cc

same_key_self : (k : RedisKey) → same_key k k ≡ true
unfolding same_key
same_key_self queue = refl
same_key_self (job_state a) = eq_self a
same_key_self (job_progress a) = eq_self a
same_key_self (rate_limit a) = eq_self a

abbrev is_live : Option ℕ → ℕ → Bool
is_live none now = true
is_live (some t) now = ltb now t

unfoldable pub peek : RedisKey → Server → Option Entry
peek k s = elim (s.entries k) [
  | none ↦ none
  | some e ↦ if is_live e.expires s.now then some e else none
]

unfoldable pub put : RedisKey → Entry → Server → Server
unfolding same_key
put k e s = record s { entries = λ j. if same_key j k then some e else s.entries j }

unfoldable pub get_text : RedisKey → Server → Option (Option Text)
unfolding peek
get_text k s = if s.up then some (elim (peek k s) [ none ↦ none | some e ↦ some e.value ]) else none

unfoldable pub set_text : RedisKey → Text → ℕ → Server → Option Server
unfolding put
set_text k v ex s =
    if s.up && ltb 0 ex
    then some (put k (record { value = v; expires = some (s.now + ex) }) s)
    else none

unfoldable pub count_of : Text → ℕ
count_of (number_text n) = n
count_of _ = 0

instance abbrev pub memory : Redis Server Text
memory = record {
  refuses = λ k s. false;
  get = get_text;
  set = set_text;
  set_new = λ k n ex s.
      if s.up
      then (elim (peek k s) [
        | none ↦
            some (true, put k (record { value = number_text n; expires = some (s.now + ex) }) s)
        | some e ↦ some (false, s)
      ])
      else none;
  incr = λ k s.
      if s.up
      then (elim (peek k s) [
        | none ↦ some (1, put k (record { value = number_text 1; expires = none }) s)
        | some e ↦ some (
          count_of e.value + 1,
          put k (record e { value = number_text (count_of e.value + 1) }) s,
        )
      ])
      else none;
  ttl = λ k s.
      if s.up
      then some (elim (peek k s) [
        | none ↦ some (negsuc 1)
        | some e ↦ some (elim e.expires [ none ↦ negsuc 0 | some t ↦ pos (t - s.now) ])
      ])
      else none;
  expire = λ k ex s.
      if s.up
      then (elim (peek k s) [
        | none ↦ some s
        | some e ↦ some (put k (record e { expires = some (s.now + ex) }) s)
      ])
      else none;
  rpush = λ k n s. if s.up then some (record s { jobs = s.jobs ++ n ∷ [] }) else none;
  blpop = λ k timeout s.
      if s.up
      then (elim s.jobs [ [] ↦ some (none, s) | j ∷ js ↦ some (some j, record s { jobs = js }) ])
      else none;
  enqueue_job = λ n s. if s.up then some (record s { tasks = s.tasks ++ n ∷ [] }) else none;
}

abbrev pub memory_json : Json Text
memory_json = record {
  dumps_state = state_text;
  loads_state = λ t. elim t [ state_text e ↦ some e | _ ↦ none ];
  dumps_progress = progress_text;
  loads_progress = λ t. elim t [ progress_text e ↦ some e | _ ↦ none ];
}

abbrev pub empty_server : Server
empty_server = record { up = true; now = 0; entries = λ k. none; jobs = []; tasks = [] }

module _ (k : RedisKey) (v : Text) (ex : ℕ) (s t : Server)
    (written : set_text k v ex s ≡ some t) where
  get-set_self : (get_text k t ≡ none) ⊎ (get_text k t ≡ some (some v))
  unfolding get_text set_text
  get-set_self = ground (arith, same_key_self k)

get-set_ne :
    (k j : RedisKey) (v : Text) (ex : ℕ) (s t : Server)
    → j ≢ k
    → set_text k v ex s ≡ some t
    → (get_text j t ≡ none) ⊎ (get_text j t ≡ get_text j s)
unfolding get_text set_text
get-set_ne k j v ex s t other written = ground (arith, same_key_sound j k)

pub Memory-IsRedis : IsRedis memory
Memory-IsRedis = record { get-set_self = get-set_self; get-set_ne = get-set_ne }

pub Memory-IsJson : IsJson memory_json
Memory-IsJson = record { loads-dumps_state = λ e. refl; loads-dumps_progress = λ e. refl }
