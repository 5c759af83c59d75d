-- ===== src/App/Hoare.antt =====
-- Postconditions of actions, one rule for each way to build an action.
use llm_evaluation_pipeline.Prelude.{
  ◌≡◌, refl, Bool, true, false, if◌then◌else◌, not, ◌&&◌, Option, none, some,
}
use llm_evaluation_pipeline.Models.{Database}
use llm_evaluation_pipeline.App.{
  Exception, Result, ok, raised, World, Exec, pure, raise, ◌>>=◌, proceed, except, handle,
  in_session, send, query, commit, Backend, redis_error, database_error,
}

module _ {F D R A : Type 0} where
  -- `Q` holds of what is returned, `E` of what is raised
  abbrev pub Outcome :
      (A → World F D R → Type 0) → (World F D R → Type 0) → Result A × World F D R → Type 0
  Outcome Q E (ok a, w) = Q a w
  Outcome Q E (raised e, w) = E w

  pub Outcome-weaken :
      (Q S : A → World F D R → Type 0) (o : Result A × World F D R)
      → ((a : A) → (w : World F D R) → Q a w → S a w)
      → Outcome Q (λ _. Unit) o
      → Outcome S (λ _. Unit) o
  Outcome-weaken Q S (ok a, w) next q = next a w q
  Outcome-weaken Q S (raised e, w) next q = q

  -- from a world with `P`, the action ends with `Q`, or raises with `E`
  pub record Ensures (P : World F D R → Type 0) (m : Exec F D R A) (Q : A → World F D R → Type 0)
      (E : World F D R → Type 0) : Type 0 where
    pub run : (w : World F D R) → P w → Outcome Q E (m w)

  -- from any world, the action raises or ends with `Q`
  pub record Returns (m : Exec F D R A) (Q : A → World F D R → Type 0) : Type 0 where
    pub value : (w : World F D R) → Outcome Q (λ _. Unit) (m w)

  pub Returns-pure :
      (Q : A → World F D R → Type 0) (a : A) → ((w : World F D R) → Q a w) → Returns (pure a) Q
  Returns-pure Q a q = record { value = λ w. q w }

  pub Returns-raise : (Q : A → World F D R → Type 0) (e : Exception) → Returns (raise e) Q
  Returns-raise Q e = record { value = λ w. tt }

  anything : (o : Result A × World F D R) → Outcome (λ a w. Unit {0}) (λ w. Unit) o
  anything (ok a, w) = tt
  anything (raised e, w) = tt

  pub Returns-any : (m : Exec F D R A) → Returns m (λ _ _. Unit)
  Returns-any m = record { value = λ w. anything (m w) }

  pub Returns-if :
      (c : Bool) (m n : Exec F D R A) (Q : A → World F D R → Type 0)
      → Returns m Q
      → Returns n Q
      → Returns (if c then m else n) Q
  Returns-if true m n Q hm hn = hm
  Returns-if false m n Q hm hn = hn

  Outcome-handle :
      (Q : A → World F D R → Type 0) (h : Exception → Exec F D R A) (o : Result A × World F D R)
      → ((e : Exception) → Returns (h e) Q)
      → Outcome Q (λ _. Unit) o
      → Outcome Q (λ _. Unit) (handle h o)
  Outcome-handle Q h (ok a, w) next q = q
  Outcome-handle Q h (raised e, w) next q = (next e).value w

  pub Returns-except :
      (m : Exec F D R A) (h : Exception → Exec F D R A) (Q : A → World F D R → Type 0)
      → Returns m Q
      → ((e : Exception) → Returns (h e) Q)
      → Returns (except m h) Q
  unfolding except
  Returns-except m h Q hm hh = record { value = λ w. Outcome-handle Q h (m w) hh (hm.value w) }

  pub Outcome-world :
      (Q S : A → World F D R → Type 0) (g : World F D R → World F D R) (o : Result A × World F D R)
      → ((a : A) → (w : World F D R) → Q a w → S a (g w))
      → Outcome Q (λ _. Unit) o
      → Outcome S (λ _. Unit) (o.0, g o.1)
  Outcome-world Q S g (ok a, w) keep q = keep a w q
  Outcome-world Q S g (raised e, w) keep q = q

  -- what is left at the end of a session does not hang on the session's own view
  pub Returns-in_session :
      (m : Exec F D R A) (Q : A → World F D R → Type 0)
      → ((a : A) → (w : World F D R) → Q a w → Q a (record w { view = w.stored; broken = false }))
      → Returns m Q
      → Returns (in_session m) Q
  unfolding in_session
  Returns-in_session m Q keep h = record {
    value = λ w.
        let opened = record w { view = w.stored; broken = false } in
        Outcome-world Q Q (λ v. record v { view = v.stored; broken = false }) (m opened) keep
          (h.value opened);
  }

module _ {F D R A B : Type 0} where
  Outcome-proceed :
      (Q : A → World F D R → Type 0) (S : B → World F D R → Type 0) (E : World F D R → Type 0)
      (k : A → Exec F D R B) (o : Result A × World F D R)
      → ((a : A) → (w : World F D R) → Q a w → Outcome S E (k a w))
      → Outcome Q E o
      → Outcome S E (proceed k o)
  Outcome-proceed Q S E k (ok a, w) next q = next a w q
  Outcome-proceed Q S E k (raised e, w) next q = q

  pub Outcome-bind :
      (Q : A → World F D R → Type 0) (S : B → World F D R → Type 0) (E : World F D R → Type 0)
      (m : Exec F D R A) (k : A → Exec F D R B) (w : World F D R)
      → Outcome Q E (m w)
      → ((a : A) → (v : World F D R) → Q a v → Outcome S E (k a v))
      → Outcome S E ((m >>= k) w)
  unfolding ◌>>=◌
  Outcome-bind Q S E m k w first next = Outcome-proceed Q S E k (m w) next first

  pub Returns-bind :
      (Q : A → Type 0) (S : B → World F D R → Type 0) (m : Exec F D R A) (k : A → Exec F D R B)
      → Returns m (λ a _. Q a)
      → ((a : A) → Q a → Returns (k a) S)
      → Returns (m >>= k) S
  unfolding ◌>>=◌
  Returns-bind Q S m k first next = record {
    value = λ w.
        Outcome-proceed (λ a _. Q a) S (λ _. Unit) k (m w) (λ a v q. (next a q).value v)
          (first.value w);
  }

  -- a step whose value does not matter
  pub Returns-then :
      (S : B → World F D R → Type 0) (m : Exec F D R A) (k : A → Exec F D R B)
      → ((a : A) → Returns (k a) S)
      → Returns (m >>= k) S
  Returns-then S m k next = Returns-bind (λ _. Unit) S m k (Returns-any m) (λ a _. next a)

  pub Ensures-bind :
      {P : World F D R → Type 0} (Q : A → World F D R → Type 0) {S : B → World F D R → Type 0}
      {E : World F D R → Type 0} (m : Exec F D R A) (k : A → Exec F D R B)
      → Ensures P m Q E
      → ((a : A) → Ensures (Q a) (k a) S E)
      → Ensures P (m >>= k) S E
  unfolding ◌>>=◌
  Ensures-bind Q {S} {E} m k first next = record {
    run = λ w p. Outcome-proceed Q S E k (m w) (λ a v q. (next a).run v q) (first.run w p);
  }

module _ {F D R : Type 0} where
  pub send-Outcome :
      (g : R → Option R) (w : World F D R)
      → Outcome (λ (x : Unit {0}) v. v.stored ≡ w.stored) (λ v. Unit) (send g w)
  unfolding send
  send-Outcome g w = go (g w.redis)
    where
      go :
          (o : Option R)
          → Outcome {R = R}
              (λ (x : Unit {0}) v. v.stored ≡ w.stored)
              (λ v. Unit)
              (elim o [ none ↦ (raised redis_error, w) | some r ↦ (ok tt, record w { redis = r }) ])
      go none = tt
      go (some r) = refl

module _ {F D R A : Type 0} where
  pub query-Outcome :
      (g : Database F D → A) (w : World F D R)
      → Outcome (λ a v. (a ≡ g w.view) × (v ≡ w)) (λ v. Unit) (query g w)
  unfolding query
  query-Outcome g w = go w.broken
    where
      go :
          (c : Bool)
          → Outcome
              (λ a v. (a ≡ g w.view) × (v ≡ w))
              (λ v. Unit)
              (if c then (raised database_error, w) else (ok (g w.view), w))
      go true = tt
      go false = (refl, refl)

module _ {F D R V : Type 0} (b : Backend F D R V) where
  pub commit-Outcome :
      (w : World F D R) → Outcome (λ (x : Unit {0}) v. v.stored ≡ w.view) (λ v. Unit) (commit b w)
  unfolding commit
  commit-Outcome w = go (b.accepts w.stored w.view && not w.broken)
    where
      go :
          (c : Bool)
          → Outcome {R = R}
              (λ (x : Unit {0}) v. v.stored ≡ w.view)
              (λ v. Unit)
              (if c
                then (ok tt, record w { stored = w.view })
                else (raised database_error, record w { broken = true }))
      go true = refl
      go false = tt
