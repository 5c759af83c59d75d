-- ===== src/Composite/Partition.antt =====
-- Which metrics contribute to the composite score, and which are missing.
use llm_evaluation_pipeline.Prelude.{
  is_empty, String, ◌≡◌, refl, ap, sym, ◌∙◌, ◌==◌, text_comparable, Bool, true, false, not, Option,
  none, some, List, [], ◌∷◌, ◌++◌, arith, select, All, ◌⊎◌, inl, inr, Bool-cases, if◌then◌else◌,
}
use text.Mathlib.TextEquality.{eq_iff}
use mathlib.Core.List.{append-nil, append_assoc}
use llm_evaluation_pipeline.Dict.{
  Dict, lookup, insert, keys, values, contains, IsDict, contains-insert, lookup-insert,
}
use llm_evaluation_pipeline.Number.{Float, zero_float}
use llm_evaluation_pipeline.Metric.{is_error, MetricResult}
use llm_evaluation_pipeline.Composite.{
  add_results, Contribution, Tally, result_map, weigh, weigh_all, add_missing, add_contribution,
  compute_composite, map_values, no_tally,
}

keys-map_values : {F : Type 0} (g : F → F) (d : Dict F) → keys (map_values g d) ≡ keys d
keys-map_values g [] = refl
keys-map_values g ((k, v) ∷ d) = ap (◌∷◌ k) (keys-map_values g d)

contains-map_values :
    {F : Type 0} (k : String) (g : F → F) (d : Dict F) → contains k (map_values g d) ≡ contains k d
unfolding contains
contains-map_values k g [] = refl
contains-map_values k g ((j, v) ∷ d) = ground (arith, contains-map_values k g d)

module _ {V : Type 0} where
  keys-insert_new :
      (k : String) (v : V) (d : Dict V)
      → contains k d ≡ false
      → keys (insert k v d) ≡ keys d ++ k ∷ []
  unfolding insert contains
  keys-insert_new k v [] h = refl
  keys-insert_new k v ((j, w) ∷ d) h = ground (arith, keys-insert_new k v d)

  -- none of the names is a key of the dictionary
  abbrev AreNew : List String → Dict V → Type 0
  AreNew ks d = All (λ k. contains k d ≡ false) ks

  AreNew-insert :
      (k : String) (v : V) (ks : List String) (d : Dict V)
      → All (λ j. (k == j) ≡ false) ks
      → AreNew ks d
      → AreNew ks (insert k v d)
  AreNew-insert k v [] d h a = tt
  AreNew-insert k v (j ∷ ks) d h a =
      (rw (contains-insert k j v d, h.0) a.0, AreNew-insert k v ks d h.1 a.1)

  keys_other :
      (k : String) (d : Dict V) → contains k d ≡ false → All (λ j. (k == j) ≡ false) (keys d)
  unfolding contains
  keys_other k [] h = tt
  keys_other k ((j, w) ∷ d) h =
      (ground (arith, eq_iff k j, eq_iff j k), keys_other k d (ground arith))

module _ {F D : Type 0} ⦃f : Float F⦄ where
  -- the last result of a metric
  unfoldable pub last_result : String → List (MetricResult F D) → Option (MetricResult F D)
  last_result k [] = none
  last_result k (r ∷ rs) = elim (last_result k rs) [
    | none ↦ if r.metric == k then some r else none
    | some r' ↦ some r'
  ]

  pub lookup-add_results :
      (k : String) (rs : List (MetricResult F D)) (d : Dict (MetricResult F D))
      → lookup k (add_results d rs)
        ≡ elim (last_result k rs) [ none ↦ lookup k d | some r ↦ some r ]
  unfolding add_results last_result
  lookup-add_results k [] d = refl
  lookup-add_results k (r ∷ rs) d =
      lookup-add_results k rs (insert r.metric r d) ∙ ground (arith, lookup-insert r.metric k r d)

  -- the metric has a result, and the last one is no error
  abbrev pub is_scored : List (MetricResult F D) → String → Bool
  is_scored results metric = elim (last_result metric results) [
    | none ↦ false
    | some r ↦ not (is_error r.error)
  ]

  module _ (rs : List (MetricResult F D)) where
    -- what one round does
    weigh-cases :
        (k : String) (w : F) (t : Tally F)
        → ((is_scored rs k ≡ true)
            × ((r : MetricResult F D) × (weigh (result_map rs) k w t ≡ add_contribution k w r t)))
          ⊎ ((is_scored rs k ≡ false) × (weigh (result_map rs) k w t ≡ add_missing k t))
    unfolding weigh lookup
    weigh-cases k w t = go (last_result k rs) refl
      where
        default : (o : Option (MetricResult F D)) → elim o [ none ↦ none | some r ↦ some r ] ≡ o
        default none = refl
        default (some r) = refl

        found :
            (o : Option (MetricResult F D)) → last_result k rs ≡ o → lookup k (result_map rs) ≡ o
        found o e = lookup-add_results k rs [] ∙ rw e (default o)

        go :
            (o : Option (MetricResult F D))
            → last_result k rs ≡ o
            → ((is_scored rs k ≡ true)
                × ((r : MetricResult F D) × (weigh (result_map rs) k w t
                      ≡ add_contribution k w r t)))
              ⊎ ((is_scored rs k ≡ false) × (weigh (result_map rs) k w t ≡ add_missing k t))
        go none e = inr (rw (e, is_scored), rw (found none e, weigh))
        go (some r) e = elim (Bool-cases (is_error r.error)) [
          | inl bad ↦ inr (rw (e, is_scored) (rw bad), rw (found (some r) e, weigh) (rw bad))
          | inr good ↦
              inl (rw (e, is_scored) (rw good), (r, rw (found (some r) e, weigh) (rw good)))
        ]

    keys-weigh_all :
        (ws : Dict F) (t : Tally F)
        → IsDict ws
        → AreNew (keys ws) t.contributions
        → (keys (weigh_all (result_map rs) ws t).contributions
            ≡ keys t.contributions ++ select (is_scored rs) (keys ws))
          × ((weigh_all (result_map rs) ws t).missing_metrics
              ≡ t.missing_metrics ++ select (λ k. not (is_scored rs k)) (keys ws))
    unfolding weigh_all add_missing add_contribution
    keys-weigh_all [] t u n = (sym (append-nil _), sym (append-nil _))
    keys-weigh_all ((k, w) ∷ ws) t u n = elim (weigh-cases k w t) [
      | inl (scored, (r, e)) ↦
          let t' = add_contribution k w r t in
          let rest =
            keys-weigh_all ws t' u.1
              (AreNew-insert k _ (keys ws) t.contributions (keys_other k ws u.0) n.1) in
          rw (ap (weigh_all (result_map rs) ws) e, scored)
            (
              rest.0
                  ∙ rw (keys-insert_new k _ t.contributions n.0)
                      (append_assoc (keys t.contributions) (k ∷ []) _),
              rest.1,
            )
      | inr (missing, e) ↦
          let rest = keys-weigh_all ws (add_missing k t) u.1 n.1 in
          rw (ap (weigh_all (result_map rs) ws) e, missing)
            (rest.0, rest.1 ∙ append_assoc t.missing_metrics (k ∷ []) _)
    ]

    map_values-IsDict : (g : F → F) (ws : Dict F) → IsDict ws → IsDict (map_values g ws)
    map_values-IsDict g [] u = tt
    map_values-IsDict g ((k, w) ∷ ws) u =
        (contains-map_values k g ws ∙ u.0, map_values-IsDict g ws u.1)

    AreNew-nil : (ks : List String) → AreNew {V = Contribution F} ks []
    unfolding contains
    AreNew-nil [] = tt
    AreNew-nil (k ∷ ks) = (refl, AreNew-nil ks)

    -- Where the composite score is computed, a metric with a weight contributes exactly if its last
    -- result exists and is no error, and all others are listed as missing; both lists keep the
    -- order of the weights, in which no name stands twice.
    pub compute_composite_partition :
        (weights : Dict F)
        → IsDict weights
        → (compute_composite rs weights).error ≡ none
        → (keys (compute_composite rs weights).contributions ≡ select (is_scored rs) (keys weights))
          × ((compute_composite rs weights).missing_metrics
              ≡ some (select (λ k. not (is_scored rs k)) (keys weights)))
    unfolding compute_composite
    compute_composite_partition weights u h =
        let normalized = map_values (λ v. f.div v (f.sum (values weights))) weights in
        let split =
          keys-weigh_all normalized no_tally (map_values-IsDict _ weights u) (AreNew-nil _) in
        let same = keys-map_values (λ v. f.div v (f.sum (values weights))) weights in
        elim (Bool-cases (is_empty weights)) [
          | inl e ↦ cc (rw e at h)
          | inr e ↦ elim (Bool-cases (f.eq (f.sum (values weights)) zero_float)) [
            | inl z ↦ cc (rw (e, z) at h)
            | inr z ↦
                rw (e, z)
                  (
                    split.0 ∙ ap (select (is_scored rs)) same,
                    ap some (split.1 ∙ ap (select (λ k. not (is_scored rs k))) same),
                  )
          ]
        ]
