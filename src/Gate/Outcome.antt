-- ===== src/Gate/Outcome.antt =====
-- When `evaluate_gate` passes.
use llm_evaluation_pipeline.Prelude.{
  String, ◌≡◌, refl, ◌↔◌, true, Option, none, some, List, [], ◌∷◌, arith, All,
}
use llm_evaluation_pipeline.Dict.{
  Dict, lookup, values, IsDict, insert-IsDict, lookup-All, All-lookup,
}
use llm_evaluation_pipeline.Number.{Float, zero_float}
use llm_evaluation_pipeline.Metric.{Direction, higher_is_better, lower_is_better, metric_direction}
use llm_evaluation_pipeline.Gate.{
  Threshold, Results, Check, pass, get_or, extract_metric_value, make_check, check_metric,
  add_check, run_checks, all_passed, evaluate_gate,
}
use llm_evaluation_pipeline.Gate.Checks.{checked, lookup-evaluate_gate}

module _ {F : Type 0} ⦃f : Float F⦄ where
  -- the value reaches the minimum, or stays within the maximum
  abbrev pub IsWithin : Direction → Threshold F → F → Type 0
  IsWithin higher_is_better t v = f.le (get_or t.min zero_float) v ≡ true
  IsWithin lower_is_better t v = f.le v (get_or t.max f.inf) ≡ true

  -- every configured metric that has a direction and a value is within its threshold
  abbrev pub AllWithin : Dict (Threshold F) → Results F → Type 0
  AllWithin ts r =
      (name : String) (t : Threshold F) (d : Direction) (v : F)
      → lookup name ts ≡ some t
      → lookup name metric_direction ≡ some d
      → extract_metric_value name r ≡ some v
      → IsWithin d t v

  IsPassed : Check F → Type 0
  IsPassed c = c.passed ≡ true

  all_passed_iff : (cs : List (Check F)) → (all_passed cs ≡ true) ↔ All IsPassed cs
  unfolding all_passed IsPassed
  all_passed_iff [] = (λ _. tt, λ _. refl)
  all_passed_iff (c ∷ cs) = ground (arith, all_passed_iff cs)

  run_checks-IsDict :
      (ts : Dict (Threshold F)) (r : Results F) (checks : Dict (Check F))
      → IsDict checks
      → IsDict (run_checks ts r checks)
  unfolding run_checks
  run_checks-IsDict [] r checks u = u
  run_checks-IsDict ((name, t) ∷ ts) r checks u =
      run_checks-IsDict ts r (add_check name (check_metric name t r) checks)
        (add (check_metric name t r))
    where
      add : (c : Option (Check F)) → IsDict (add_check name c checks)
      add none = u
      add (some c) = insert-IsDict name c checks u

  IsPassed-iff :
      (d : Direction) (t : Threshold F) (v : F) → IsPassed (make_check d t v) ↔ IsWithin d t v
  unfolding IsPassed make_check
  IsPassed-iff higher_is_better t v = (λ h. h, λ h. h)
  IsPassed-iff lower_is_better t v = (λ h. h, λ h. h)

  -- a check that is made comes of a threshold, a direction and a value
  pub check_metric-cases :
      (name : String) (t : Threshold F) (r : Results F) (c : Check F)
      → check_metric name t r ≡ some c
      → (d : Direction) × (v : F) × (lookup name metric_direction ≡ some d)
        × (extract_metric_value name r ≡ some v)
        × (c ≡ make_check d t v)
  unfolding check_metric
  check_metric-cases name t r c h = ground arith

  status_iff :
      (ts : Dict (Threshold F)) (r : Results F)
      → ((evaluate_gate ts r).status ≡ pass) ↔ All IsPassed (values (evaluate_gate ts r).checks)
  unfolding evaluate_gate
  status_iff ts r = ground (arith, all_passed_iff (values (run_checks ts r [])))

  module _ (ts : Dict (Threshold F)) (r : Results F) (u : IsDict ts) where
    passed→within : All IsPassed (values (evaluate_gate ts r).checks) → AllWithin ts r
    unfolding check_metric
    passed→within a name t d v et ed ev =
        (IsPassed-iff d t v).0
          (lookup-All IsPassed name (make_check d t v) (evaluate_gate ts r).checks a made)
      where
        made : lookup name (evaluate_gate ts r).checks ≡ some (make_check d t v)
        made = rw (lookup-evaluate_gate name ts r u) (ground arith)

    checked-IsPassed :
        AllWithin ts r
        → (name : String) (c : Check F) → (o : Option (Threshold F)) → lookup name ts ≡ o
        → checked name o r none ≡ some c
        → IsPassed c
    checked-IsPassed w name c none et e = cc
    checked-IsPassed w name c (some t) et e =
        let (d, v, ed, ev, ec) = check_metric-cases name t r c (ground arith) in
        rw ec ((IsPassed-iff d t v).1 (w name t d v et ed ev))

    within→passed : AllWithin ts r → All IsPassed (values (evaluate_gate ts r).checks)
    unfolding evaluate_gate run_checks
    within→passed w =
        All-lookup IsPassed (evaluate_gate ts r).checks (run_checks-IsDict ts r [] tt) λ name c e.
          checked-IsPassed w name c (lookup name ts) refl
            (rw (lookup-evaluate_gate name ts r u) at e)

  -- The gate passes exactly when every configured metric that METRIC_DIRECTION lists, and for which
  -- the results have a value, meets its threshold: at least `min` (0 if absent) where higher is
  -- better, at most `max` (infinity if absent) where lower is better. No name stands twice in the
  -- thresholds.
  pub evaluate_gate_iff :
      (ts : Dict (Threshold F)) (r : Results F)
      → IsDict ts
      → ((evaluate_gate ts r).status ≡ pass) ↔ AllWithin ts r
  evaluate_gate_iff ts r u =
      let s = status_iff ts r in
      (λ h. passed→within ts r u (s.0 h), λ w. s.1 (within→passed ts r u w))
