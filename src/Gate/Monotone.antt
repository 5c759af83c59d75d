-- ===== src/Gate/Monotone.antt =====
-- Stricter thresholds never pass what looser ones fail.
use llm_evaluation_pipeline.Prelude.{String, ◌≡◌, true, some}
use llm_evaluation_pipeline.Dict.{Dict, lookup, IsDict}
use llm_evaluation_pipeline.Number.{Float, IsFloat, zero_float}
use llm_evaluation_pipeline.Metric.{Direction, higher_is_better, lower_is_better, metric_direction}
use llm_evaluation_pipeline.Gate.{Threshold, Results, pass, get_or, evaluate_gate}
use llm_evaluation_pipeline.Gate.Outcome.{evaluate_gate_iff, IsWithin}

module _ {F : Type 0} ⦃f : Float F⦄ where
  -- `strict` asks at least what `loose` asks
  abbrev pub IsTighter : Direction → Threshold F → Threshold F → Type 0
  IsTighter higher_is_better loose strict =
      f.le (get_or loose.min zero_float) (get_or strict.min zero_float) ≡ true
  IsTighter lower_is_better loose strict =
      f.le (get_or strict.max f.inf) (get_or loose.max f.inf) ≡ true

  -- each threshold of `loose` has one of the same name in `strict` that is at least as tight
  abbrev pub AllTighter : Dict (Threshold F) → Dict (Threshold F) → Type 0
  AllTighter loose strict =
      (name : String) (t : Threshold F) (d : Direction)
      → lookup name loose ≡ some t
      → lookup name metric_direction ≡ some d
      → (s : Threshold F) × (lookup name strict ≡ some s) × IsTighter d t s

  module _ (laws : IsFloat F) where
    IsWithin-loosen :
        (d : Direction) (loose strict : Threshold F) (v : F)
        → IsTighter d loose strict
        → IsWithin d strict v
        → IsWithin d loose v
    IsWithin-loosen higher_is_better loose strict v h k = laws.le_trans _ _ _ h k
    IsWithin-loosen lower_is_better loose strict v h k = laws.le_trans _ _ _ k h

    -- If the results pass a gate, they pass every gate each of whose thresholds has a counterpart
    -- in the first gate that is at least as tight.
    pub evaluate_gate_mono :
        (loose strict : Dict (Threshold F)) (r : Results F)
        → IsDict loose
        → IsDict strict
        → AllTighter loose strict
        → (evaluate_gate strict r).status ≡ pass
        → (evaluate_gate loose r).status ≡ pass
    evaluate_gate_mono loose strict r ul us tighter passes =
        (evaluate_gate_iff loose r ul).1 λ name t d v et ed ev.
          let (s, es, h) = tighter name t d et ed in
          IsWithin-loosen d t s v h ((evaluate_gate_iff strict r us).0 passes name s d v es ed ev)
