-- ===== src/App/Calls.antt =====
-- What an action computes to, where the calls it makes are answered.
use llm_evaluation_pipeline.Prelude.{
  ◌≡◌, refl, ap, ◌∙◌, true, false, Option, none, some, if◌then◌else◌,
}
use llm_evaluation_pipeline.Models.{Database}
use llm_evaluation_pipeline.App.{
  Exec, Exception, Backend, World, Result, ok, raised, redis_error, database_error, proceed, ◌>>=◌,
  except, handle, query, ask, call, send, commit,
}

module _ {F D R A B : Type 0} where
  pub bind_ok :
      (m : Exec F D R A) (k : A → Exec F D R B) {w v : World F D R} {a : A}
      {o : Result B × World F D R}
      → m w ≡ (ok a, v)
      → k a v ≡ o
      → (m >>= k) w ≡ o
  unfolding ◌>>=◌
  bind_ok m k e f = ap (proceed k) e ∙ f

module _ {F D R A : Type 0} where
  pub except_ok :
      (m : Exec F D R A) {w v : World F D R} {a : A} (h : Exception → Exec F D R A)
      → m w ≡ (ok a, v)
      → except m h w ≡ (ok a, v)
  unfolding except
  except_ok m h e = ap (handle h) e

  pub query_ok :
      (g : Database F D → A) (w : World F D R) → w.broken ≡ false → query g w ≡ (ok (g w.view), w)
  unfolding query
  query_ok g w e = ap (λ c. if c then (raised database_error, w) else (ok (g w.view), w)) e

  pub ask_ok :
      (g : R → Option A) {w : World F D R} {a : A} → g w.redis ≡ some a → ask g w ≡ (ok a, w)
  unfolding ask
  ask_ok g {w} e = ap (λ o. elim o [ none ↦ (raised redis_error, w) | some x ↦ (ok x, w) ]) e

module _ {F D R A : Type 0} where
  pub call_ok :
      (g : R → Option (A × R)) {w : World F D R} {a : A} {r : R}
      → g w.redis ≡ some (a, r)
      → call g w ≡ (ok a, record w { redis = r })
  unfolding call
  call_ok g {w} e =
      ap
        (λ o. elim o [
          | none ↦ (raised redis_error, w)
          | some (x, y) ↦ (ok x, record w { redis = y })
        ])
        e

module _ {F D R : Type 0} where
  pub send_ok :
      (g : R → Option R) {w : World F D R} {r : R}
      → g w.redis ≡ some r
      → send g w ≡ (ok tt, record w { redis = r })
  unfolding send
  send_ok g {w} e =
      ap (λ o. elim o [ none ↦ (raised redis_error, w) | some x ↦ (ok tt, record w { redis = x }) ])
        e

module _ {F D R V : Type 0} (b : Backend F D R V) where
  pub commit_ok :
      (w : World F D R)
      → b.accepts w.stored w.view ≡ true
      → w.broken ≡ false
      → commit b w ≡ (ok tt, record w { stored = w.view })
  unfolding commit
  commit_ok w yes' e = rw (yes', e) refl
