-- ===== src/Gate/Checks.antt =====
-- Which checks `evaluate_gate` makes.
use llm_evaluation_pipeline.Prelude.{
  String, ◌≡◌, refl, ◌∙◌, Option, none, some, [], ◌∷◌, arith, ◌==◌, text_comparable, if◌then◌else◌,
}
use text.Mathlib.TextEquality.{eq_iff}
use llm_evaluation_pipeline.Dict.{Dict, lookup, IsDict, lookup-insert, lookup_missing}
use llm_evaluation_pipeline.Number.{Float}
use llm_evaluation_pipeline.Gate.{
  Threshold, Results, Check, check_metric, add_check, run_checks, evaluate_gate,
}

module _ {F : Type 0} ⦃f : Float F⦄ where
  abbrev pub checked :
      String → Option (Threshold F) → Results F → Option (Check F) → Option (Check F)
  checked name none r old = old
  checked name (some t) r old = elim (check_metric name t r) [ none ↦ old | some c ↦ some c ]

  pub lookup-add_check :
      (k name : String) (c : Option (Check F)) (checks : Dict (Check F))
      → lookup k (add_check name c checks) ≡ (
          if name == k
          then elim c [ none ↦ lookup k checks | some c' ↦ some c' ]
          else lookup k checks)
  lookup-add_check k name none checks = ground arith
  lookup-add_check k name (some c) checks = lookup-insert name k c checks

  lookup-run_checks :
      (k : String) (ts : Dict (Threshold F)) (r : Results F) (checks : Dict (Check F))
      → IsDict ts
      → lookup k (run_checks ts r checks) ≡ checked k (lookup k ts) r (lookup k checks)
  unfolding run_checks lookup
  lookup-run_checks k [] r checks d = refl
  lookup-run_checks k ((name, t) ∷ ts) r checks d =
      lookup-run_checks k ts r (add_check name (check_metric name t r) checks) d.1
      ∙ ground (
        arith,
        lookup-add_check k name (check_metric name t r) checks,
        lookup_missing name ts,
        eq_iff name k,
      )

  -- The checks of the result are those of the configured metrics: for each name, `checks` holds
  -- what one round of the loop makes of its threshold, and nothing for a name that has none.
  pub lookup-evaluate_gate :
      (k : String) (ts : Dict (Threshold F)) (r : Results F)
      → IsDict ts
      → lookup k (evaluate_gate ts r).checks ≡ checked k (lookup k ts) r none
  unfolding evaluate_gate lookup
  lookup-evaluate_gate k ts r d = lookup-run_checks k ts r [] d
