-- ===== src/Profiles/Missing.antt =====
-- The weight of "hallucination_fraction_unsupported" in the composite scores of evaluator/profiles.py.
use llm_evaluation_pipeline.Prelude.{
  ◌≡◌, refl, sym, ap, ◌∙◌, subst, inl, inr, Bool-cases, String, Bool, true, false, Option, none,
  some, List, [], ◌∷◌, map, select, All, ◌||◌, not, if◌then◌else◌, ◌==◌, text_comparable, arith,
  is_empty, false≢true,
}
use llm_evaluation_pipeline.Dict.{Dict, IsDict, keys, values, lookup, contains}
use llm_evaluation_pipeline.Number.{Float}
use llm_evaluation_pipeline.Metric.{MetricResult, is_error}
use llm_evaluation_pipeline.Composite.{compute_composite}
use llm_evaluation_pipeline.Composite.Partition.{
  last_result, is_scored, compute_composite_partition,
}
use llm_evaluation_pipeline.Registry.{JudgeSettings, JudgeConfig, mentions}
use llm_evaluation_pipeline.Evaluators.{Sample, Details}
use llm_evaluation_pipeline.Profiles.{
  Tools, EvalProfile, profiles, get_profile, evaluate_with_profile,
}
use llm_evaluation_pipeline.Profiles.Names.{expected, evaluate_with_profile-metrics}

lookup-All :
    {V : Type 0} (P : V → Type 0) (k : String) (d : Dict V) (v : V)
    → All P (values d)
    → lookup k d ≡ some v
    → P v
unfolding lookup
lookup-All P k [] v h e = ground arith
lookup-All P k ((j, w) ∷ d) v h e = elim (Bool-cases (j == k)) [
  | inl b ↦ subst P (ground arith) h.0
  | inr b ↦ lookup-All P k d v h.1 (ground arith)
]

-- no name in the list is `k`
mentions-last_result :
    {F D : Type 0} ⦃f : Float F⦄ (k : String) (rs : List (MetricResult F D))
    → mentions k (map (λ r. r.metric) rs) ≡ false
    → last_result k rs ≡ none
unfolding mentions last_result
mentions-last_result k [] h = refl
mentions-last_result k (r ∷ rs) h = ground (arith, mentions-last_result k rs)

mentions-select :
    (q : String → Bool) (k : String) (ks : List String)
    → mentions k ks ≡ true
    → q k ≡ true
    → mentions k (select q ks) ≡ true
unfolding mentions
mentions-select q k [] h e = elim (false≢true h) [ ]
mentions-select q k (j ∷ ks) h e =
    go (j == k) refl (q j) refl (mentions k (select q ks)) (mentions k ks) refl h
      (λ m. mentions-select q k ks m e)
  where
    go :
        (b : Bool)
        → (j == k) ≡ b
        → (c : Bool) → q j ≡ c
        → (r m : Bool) → mentions k (select q ks) ≡ r
        → (b || m) ≡ true
        → (m ≡ true → r ≡ true)
        → mentions k (if c then j ∷ select q ks else select q ks) ≡ true
    go true jk true qj r m s h f = rw jk refl
    go true jk false qj r m s h f =
        elim (false≢true (sym qj ∙ (ap q (text_comparable.same_sound j k jk) ∙ e))) [ ]
    go false jk true qj r m s h f = rw jk (s ∙ f h)
    go false jk false qj r m s h f = s ∙ f h

abbrev pub unsupported : String
unsupported = "hallucination_fraction_unsupported"

-- the list, if there is one, has the name
abbrev pub lists : String → Option (List String) → Bool
lists k none = false
lists k (some ks) = mentions k ks

module _ {F E : Type 0} ⦃f : Float F⦄ (t : Tools F E) where
  -- the weights, if any, have the name once, and no evaluator reports under it
  abbrev NeverScored : EvalProfile F → Type 0
  NeverScored p =
      IsDict p.composite_weights
      × ((mentions unsupported (keys p.composite_weights) ≡ not (is_empty p.composite_weights))
          × (mentions unsupported (expected t p) ≡ false))

  profiles-NeverScored : All NeverScored (values profiles)
  unfolding profiles contains mentions
  profiles-NeverScored = (
    (tt, (refl, refl)),
    (
      ((refl, (refl, (refl, (refl, (refl, (refl, tt)))))), (refl, refl)),
      (
        ((refl, (refl, (refl, (refl, (refl, (refl, (refl, tt))))))), (refl, refl)),
        (((refl, (refl, (refl, (refl, (refl, (refl, (refl, (refl, tt)))))))), (refl, refl)), tt),
      ),
    ),
  )

  found-NeverScored :
      (name : String) (p : EvalProfile F) → get_profile name ≡ some p → NeverScored p
  unfolding get_profile
  found-NeverScored name p e = lookup-All NeverScored name profiles p profiles-NeverScored e

  -- Whenever a profile's composite score is computed from the results of that profile,
  -- "hallucination_fraction_unsupported" is listed as missing: the hallucination evaluator reports under
  -- "hallucination", so the weight for it is never used.
  pub compute_composite-unsupported :
      (s : JudgeSettings F) (name : String) (sample : Sample F) (config : Option (JudgeConfig F))
      (p : EvalProfile F)
      → get_profile name ≡ some p
      → (compute_composite
          (evaluate_with_profile t s name sample config).0
          p.composite_weights).error
        ≡ none
      → lists unsupported
          (compute_composite
            (evaluate_with_profile t s name sample config).0
            p.composite_weights).missing_metrics
        ≡ true
  unfolding compute_composite
  compute_composite-unsupported s name sample config p found computed =
      let never = found-NeverScored name p found in
      let rs = (evaluate_with_profile t s name sample config).0 in
      elim (Bool-cases (is_empty p.composite_weights)) [
        | inl e ↦ cc (rw e at computed)
        | inr e ↦
            ap (lists unsupported)
              (compute_composite_partition rs p.composite_weights never.0 computed).1
            ∙ mentions-select (λ k. not (is_scored rs k)) unsupported (keys p.composite_weights)
                (never.1.0 ∙ ap not e)
                (unscored rs (
                  mentions-last_result unsupported rs (
                    ap (mentions unsupported)
                      (evaluate_with_profile-metrics t s name sample config p found)
                    ∙ never.1.1)))
      ]
    where
      unscored :
          (rs : List (MetricResult F (Details F)))
          → last_result unsupported rs ≡ none
          → not (is_scored rs unsupported) ≡ true
      unscored rs h =
          ap (λ o. not (elim o as (λ _. Bool) [ none ↦ false | some r ↦ not (is_error r.error) ])) h
