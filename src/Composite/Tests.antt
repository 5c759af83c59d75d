-- ===== src/Composite/Tests.antt =====
-- Runs of `compute_composite`, and the theorems at concrete inputs.
use llm_evaluation_pipeline.Prelude.{◌≡◌, refl, String, not, some, none, List, [], ◌∷◌, select}
use llm_evaluation_pipeline.Dict.{Dict, lookup, insert, contains, keys, IsDict}
use llm_evaluation_pipeline.Number.{one_float}
use llm_evaluation_pipeline.Number.Fixed.{
  Fixed, fixed_float, sum, difference, product, quotient, rounded, total,
}
use llm_evaluation_pipeline.Metric.{MetricResult}
use llm_evaluation_pipeline.Composite.{
  compute_composite, add_results, weigh_all, weigh, add_missing, add_contribution, redistribute,
}
use llm_evaluation_pipeline.Composite.Partition.{compute_composite_partition, is_scored}

abbrev scored : String → Fixed → MetricResult Fixed Unit
scored name x = record {
  metric = name;
  score = x;
  evaluator_version = "1.0.0";
  passed = none;
  details = tt;
  error = none;
}

abbrev half : Fixed
half = fixed_float.lit 5 1

abbrev weights : Dict Fixed
weights =
    ("relevance", fixed_float.lit 4 1)
    ∷ ("faithfulness", half)
    ∷ ("llm_judge", fixed_float.lit 1 1)
    ∷ []

abbrev results : List (MetricResult Fixed Unit)
results =
    scored "relevance" half
    ∷ scored "faithfulness" half
    ∷ record (scored "llm_judge" (fixed_float.lit 0 0)) { error = some "timeout" }
    ∷ []

-- With nothing missing, equal scores give that score.
all_present :
    (compute_composite (scored "llm_judge" half ∷ scored "relevance" half ∷ []) (
      ("relevance", fixed_float.lit 4 1) ∷ ("llm_judge", fixed_float.lit 6 1) ∷ [])).composite_score
    ≡ half
unfolding compute_composite add_results weigh_all weigh add_missing add_contribution redistribute
    lookup insert sum difference product quotient rounded total
all_present = refl

-- With the judge in error, which has a tenth of the weight, two scores of 0.5 give 1: the sum is
-- divided by the weight that is missing, and not by the weight that was used.
one_missing : (compute_composite results weights).composite_score ≡ one_float
unfolding compute_composite add_results weigh_all weigh add_missing add_contribution redistribute
    lookup insert sum difference product quotient rounded total
one_missing = refl

weights-IsDict : IsDict weights
unfolding contains
weights-IsDict = (refl, (refl, (refl, tt)))

compute_composite_partition_example :
    (keys (compute_composite results weights).contributions
      ≡ select (is_scored results) (keys weights))
    × ((compute_composite results weights).missing_metrics
        ≡ some (select (λ k. not (is_scored results k)) (keys weights)))
unfolding compute_composite sum quotient total
compute_composite_partition_example =
    compute_composite_partition results weights weights-IsDict refl
