-- ===== src/RateLimit/Window.antt =====
-- The number of requests that one window admits.
use llm_evaluation_pipeline.Prelude.{
  ℕ, zero, suc, ◌+◌, ◌≡◌, refl, ap, ◌∙◌, Bool-cases, inl, inr, String, true, false, Option, some,
  arith, if◌then◌else◌, leb,
}
use llm_evaluation_pipeline.Prelude.Int.{ℤ}
use llm_evaluation_pipeline.Redis.{Redis, RedisKey, rate_limit}
use llm_evaluation_pipeline.App.{Exec, Backend, World, Result, ok, pure, ◌>>=◌}
use llm_evaluation_pipeline.App.Calls.{bind_ok, ask_ok, call_ok, send_ok}
use llm_evaluation_pipeline.RateLimit.{
  check_rate_limit, count_request, rearm, window_of, is_lost, command,
}

-- What Redis documents of a counter while it does not expire, on a server that accepts commands: `count s` is what the key holds, 0
-- where there is no key.
pub record IsCounter {R V : Type 0} (r : Redis R V) (key : RedisKey) (Up : R → Type 0)
    (count : R → ℕ) : Type 0 where
  pub accepts : (s : R) → Up s → r.refuses key s ≡ false
  pub set_new-fresh :
      (ex : ℕ) (s : R)
      → Up s
      → count s ≡ 0
      → (t : R) × ((r.set_new key 1 ex s ≡ some (true, t)) × (Up t × (count t ≡ 1)))
  pub set_new-held :
      (ex n : ℕ) (s : R)
      → Up s
      → count s ≡ suc n
      → (t : R) × ((r.set_new key 1 ex s ≡ some (false, t)) × (Up t × (count t ≡ suc n)))
  pub incr-held :
      (n : ℕ) (s : R)
      → Up s
      → count s ≡ suc n
      → (t : R) × ((r.incr key s ≡ some (suc (suc n), t)) × (Up t × (count t ≡ suc (suc n))))
  pub ttl_answers : (s : R) → Up s → (t : Option ℤ) × (r.ttl key s ≡ some t)
  pub expire_answers :
      (ex n : ℕ) (s : R)
      → Up s
      → count s ≡ n
      → (t : R) × ((r.expire key ex s ≡ some t) × (Up t × (count t ≡ n)))

-- the smaller of the two
abbrev pub at_most : ℕ → ℕ → ℕ
at_most m n = if leb n m then n else m

module _ {F D R V : Type 0} (b : Backend F D R V) where
  -- how many of n requests in a row are allowed
  unfoldable pub admitted : String → ℕ → ℕ → ℕ → Exec F D R ℕ
  admitted key max_requests window zero = pure 0
  admitted key max_requests window (suc n) = do
    allowed ← check_rate_limit b key max_requests window
    rest ← admitted key max_requests window n
    pure (if allowed then 1 + rest else rest)

  module _ (key : String) (Up : R → Type 0) (count : R → ℕ)
      (counter : IsCounter b.redis (rate_limit key) Up count) where
    -- after n requests of the window
    abbrev IsAt : ℕ → World F D R → Type 0
    IsAt n w = Up w.redis × (count w.redis ≡ n)

    command_ok :
        {A : Type 0} (m : Exec F D R A) (w : World F D R) (o : Result A × World F D R)
        → Up w.redis
        → m w ≡ o
        → command b (rate_limit key) m w ≡ o
    unfolding command
    command_ok m w o up e = rw (counter.accepts w.redis up) e

    rearm_ok :
        (window n : ℕ) (t : Option ℤ) (w : World F D R)
        → IsAt n w
        → (v : World F D R) × ((rearm b (rate_limit key) window t w ≡ (ok tt, v)) × IsAt n v)
    unfolding rearm
    rearm_ok window n t w (up, held) =
        let (s, (set, after)) = counter.expire_answers window n w.redis up held in
        elim (Bool-cases (is_lost t)) [
          | inl lost ↦
              (record w { redis = s }, (rw lost (command_ok _ w _ up (send_ok _ set)), after))
          | inr kept ↦ (w, (rw kept refl, (up, held)))
        ]

    count_request_ok :
        (max_requests window n : ℕ) (w : World F D R)
        → IsAt (suc n) w
        → (v : World F D R) × ((count_request b (rate_limit key) max_requests window w
              ≡ (ok (leb (suc (suc n)) max_requests), v))
            × IsAt (suc (suc n)) v)
    unfolding count_request
    count_request_ok max_requests window n w (up, held) =
        let (s, (incremented, (up', held'))) = counter.incr-held n w.redis up held in
        let (t, answered) = counter.ttl_answers s up' in
        let (v, (rearmed, after)) =
          rearm_ok window (suc (suc n)) t (record w { redis = s }) (up', held') in
        (
          v,
          (
            bind_ok _ _ (command_ok _ w _ up (call_ok _ incremented)) (
                bind_ok _ _ (command_ok _ (record w { redis = s }) _ up' (ask_ok _ answered))
                  (bind_ok _ _ rearmed refl)),
            after,
          ),
        )

    -- the request after n others is allowed if it is among the first `max_requests`
    check_ok :
        (max_requests window n : ℕ) (w : World F D R)
        → IsAt n w
        → (v : World F D R) × ((check_rate_limit b key max_requests window w
              ≡ (ok (leb (suc n) max_requests), v))
            × IsAt (suc n) v)
    unfolding check_rate_limit
    check_ok max_requests window zero w (up, held) =
        let (s, (fresh, after)) = counter.set_new-fresh (window_of window) w.redis up held in
        (record w { redis = s }, (bind_ok _ _ (command_ok _ w _ up (call_ok _ fresh)) refl, after))
    check_ok max_requests window (suc n) w (up, held) =
        let (s, (found, after)) = counter.set_new-held (window_of window) n w.redis up held in
        let (v, (counted, after')) =
          count_request_ok max_requests (window_of window) n (record w { redis = s }) after in
        (v, (bind_ok _ _ (command_ok _ w _ up (call_ok _ found)) counted, after'))

    -- n requests after k others
    admitted_ok :
        (max_requests window n k : ℕ) (w : World F D R)
        → IsAt k w
        → (a : ℕ) × (((admitted key max_requests window n w).0 ≡ ok a)
            × (a + at_most max_requests k ≡ at_most max_requests (k + n)))
    unfolding admitted
    admitted_ok max_requests window zero k w held = (0, (refl, ground arith))
    admitted_ok max_requests window (suc n) k w held =
        let (v, (checked, after)) = check_ok max_requests window k w held in
        let (a, (rest, sum)) = admitted_ok max_requests window n (suc k) v after in
        let u : World F D R = (admitted key max_requests window n v).1 in
        (
          if leb (suc k) max_requests then 1 + a else a,
          (
            ap (λ o. o.0) (bind_ok _ _ checked (bind_ok _ _ (ap (λ r. (r, u)) rest) refl)),
            ground (arith, sum),
          ),
        )

    -- Of n requests in a row that one window counts, on a server that answers, from a key that does not
    -- exist yet, the limiter allows exactly the first `max_requests`, or all n where there are no more.
    pub admitted_exactly :
        (max_requests window n : ℕ) (w : World F D R)
        → Up w.redis
        → count w.redis ≡ 0
        → (admitted key max_requests window n w).0 ≡ ok (at_most max_requests n)
    admitted_exactly max_requests window n w up fresh =
        let (a, (ran, sum)) = admitted_ok max_requests window n 0 w (up, fresh) in
        ran ∙ ap ok (ground (arith, sum))
