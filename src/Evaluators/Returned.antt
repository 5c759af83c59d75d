-- ===== src/Evaluators/Returned.antt =====
-- What holds of the results of an evaluator, with the errors that it catches.
use llm_evaluation_pipeline.Prelude.{◌≡◌, refl, String, Bool, true, false, if◌then◌else◌}
use llm_evaluation_pipeline.Number.{Float}
use llm_evaluation_pipeline.Metric.{MetricResult}
use llm_evaluation_pipeline.App.{Exception, Result, ok, raised}
use llm_evaluation_pipeline.Evaluators.{Details, ◌>>=◌, caught, error_result}

module _ {B : Type 0} (P : B → Type 0) where
  -- `P` holds of what is returned, if anything is
  unfoldable pub Returned : Result B → Type 0
  Returned (ok b) = P b
  Returned (raised e) = Unit

  pub Returned-ok : (b : B) → P b → Returned (ok b)
  unfolding Returned
  Returned-ok b h = h

  pub Returned-raised : (e : Exception) → Returned (raised e)
  unfolding Returned
  Returned-raised e = tt

  pub Returned-bind :
      {A : Type 0} (m : Result A) (k : A → Result B)
      → ((a : A) → Returned (k a))
      → Returned (m >>= k)
  unfolding Returned
  Returned-bind (ok a) k h = h a
  Returned-bind (raised e) k h = tt

  pub Returned-if : (b : Bool) (x y : B) → P x → P y → P (if b then x else y)
  Returned-if true x y h k = h
  Returned-if false x y h k = k

  -- the second value is asked for where the test fails
  pub Returned-unless : (b : Bool) (x y : B) → P x → (b ≡ false → P y) → P (if b then x else y)
  Returned-unless true x y h k = h
  Returned-unless false x y h k = k refl

module _ {F : Type 0} ⦃f : Float F⦄ (P : MetricResult F (Details F) → Type 0) where
  pub Returned-caught :
      (name version : String) (str : Exception → String) (r : Result (MetricResult F (Details F)))
      → ((e : String) → P (error_result name version e))
      → Returned P r
      → P (caught name version str r)
  unfolding caught Returned
  Returned-caught name version str (ok m) h k = k
  Returned-caught name version str (raised e) h k = h (str e)
