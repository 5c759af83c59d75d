-- ===== src/App/Keeps.antt =====
-- Actions that commit nothing, one rule for each way to build an action.
use llm_evaluation_pipeline.Prelude.{
  ◌≡◌, refl, ◌∙◌, Bool, true, false, Option, none, some, if◌then◌else◌,
}
use llm_evaluation_pipeline.Models.{Database}
use llm_evaluation_pipeline.App.{
  Exception, Result, ok, raised, World, Exec, pure, raise, ◌>>=◌, proceed, except, handle, query,
  ask, redis_error, database_error,
}

module _ {F D R A : Type 0} where
  abbrev IsSame : World F D R → Result A × World F D R → Type 0
  IsSame w o = o.1.stored ≡ w.stored

  -- what is committed stays as it is, whether the action returns or raises
  pub record Keeps (m : Exec F D R A) : Type 0 where
    pub same : (w : World F D R) → (m w).1.stored ≡ w.stored

  pub Keeps-pure : (a : A) → Keeps (pure a)
  Keeps-pure a = record { same = λ w. refl }

  pub Keeps-raise : (e : Exception) → Keeps (raise e)
  Keeps-raise e = record { same = λ w. refl }

  pub Keeps-query : (g : Database F D → A) → Keeps (query g)
  unfolding query
  Keeps-query g = record { same = λ w. go w w.broken }
    where
      go :
          (w : World F D R) (c : Bool)
          → IsSame w (if c then (raised database_error, w) else (ok (g w.view), w))
      go w true = refl
      go w false = refl

  pub Keeps-ask : (g : R → Option A) → Keeps (ask g)
  unfolding ask
  Keeps-ask g = record { same = λ w. go w (g w.redis) }
    where
      go :
          (w : World F D R) (o : Option A)
          → IsSame w (elim o as (λ _. Result A × World F D R) [
            | none ↦ (raised redis_error, w)
            | some a ↦ (ok a, w)
          ])
      go w none = refl
      go w (some a) = refl

  handle_same :
      (h : Exception → Exec F D R A)
      → ((e : Exception) → Keeps (h e))
      → (o : Result A × World F D R) → (handle h o).1.stored ≡ o.1.stored
  handle_same h k (ok a, w) = refl
  handle_same h k (raised e, w) = (k e).same w

  pub Keeps-except :
      (m : Exec F D R A) (h : Exception → Exec F D R A)
      → Keeps m
      → ((e : Exception) → Keeps (h e))
      → Keeps (except m h)
  unfolding except
  Keeps-except m h i k = record { same = λ w. handle_same h k (m w) ∙ i.same w }

module _ {F D R A B : Type 0} where
  proceed_same :
      (k : A → Exec F D R B)
      → ((a : A) → Keeps (k a))
      → (o : Result A × World F D R) → (proceed k o).1.stored ≡ o.1.stored
  proceed_same k h (ok a, w) = (h a).same w
  proceed_same k h (raised e, w) = refl

  pub Keeps-bind :
      (m : Exec F D R A) (k : A → Exec F D R B)
      → Keeps m
      → ((a : A) → Keeps (k a))
      → Keeps (m >>= k)
  unfolding ◌>>=◌
  Keeps-bind m k i h = record { same = λ w. proceed_same k h (m w) ∙ i.same w }
