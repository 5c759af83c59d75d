-- ===== src/Evaluators/Claims/Bounds.antt =====
-- The range of the scores of evaluator/faithfulness.py, evaluator/context_recall.py and
-- evaluator/hallucination.py, and the counts of a report.

use llm_evaluation_pipeline.Prelude.{
  ℕ, ◌+◌, ◌≤◌, ◌≡◌, refl, ap, inl, inr, Bool-cases, String, Bool, List, [], ◌∷◌, map, length,
  length-map, sym, arith,
}
use llm_evaluation_pipeline.Number.{Float}
use llm_evaluation_pipeline.App.{Exception, Result, ok, raised}
use llm_evaluation_pipeline.Evaluators.{Sample, Label, Claim, Nli, ◌>>=◌, make_result, fraction}
use llm_evaluation_pipeline.Evaluators.Returned.{
  Returned, Returned-bind, Returned-if, Returned-caught,
}
use llm_evaluation_pipeline.Evaluators.Range.{
  IsFraction, InRange, fraction-InRange, zero-InRange, HasScore, error_result-HasScore,
}
use llm_evaluation_pipeline.Evaluators.Claims.{
  check_claims, label_sentences, add_label, ReportTally, count_flagged, is_entailment,
  check_faithfulness, evaluate_faithfulness, faithfulness_of, entailment_input, report_of,
  check_recall, recall_of, evaluate_recall, evaluate_hallucination, hallucination_of,
  report_sentences, hallucination_report,
}

module _ {F : Type 0} where
  count_flagged_le : (cs : List (Claim F)) → count_flagged cs ≤ length cs
  unfolding count_flagged
  count_flagged_le [] = ground arith
  count_flagged_le (c ∷ cs) = ground (arith, count_flagged_le cs)

module _ {F : Type 0} ⦃f : Float F⦄ (upper : String → String) (nli : Nli F) where
  abbrev Claimed : List String → Result (List (Claim F)) → Type 0
  Claimed ss (ok cs) = map (λ c. c.claim) cs ≡ ss
  Claimed ss (raised e) = Unit

  -- one claim for each sentence
  check_claims-Claimed :
      (premise : String) (ss : List String) → Claimed ss (check_claims upper nli premise ss)
  unfolding check_claims
  check_claims-Claimed premise [] = refl
  check_claims-Claimed premise (s ∷ ss) =
      go (nli (entailment_input premise s)) (check_claims upper nli premise ss)
        (check_claims-Claimed premise ss)
    where
      go :
          (out : Result (Label F)) (c : Result (List (Claim F)))
          → Claimed ss c
          → Claimed (s ∷ ss) (
              out >>= λ out. c >>= λ rest. ok (
                record {
                  claim = s;
                  flag = is_entailment (upper out.label);
                  label = upper out.label;
                  confidence = f.round out.score 4;
                }
                ∷ rest))
      go (raised e) c h = tt
      go (ok out) (raised e) h = tt
      go (ok out) (ok cs) h = ap (λ xs. s ∷ xs) h

  -- what the report of sentences contains: their labels in order, and a flag for each unsupported one
  abbrev Reported : List String → Result (ReportTally F) → Type 0
  Reported ss (ok t) =
      (map (λ d. d.sentence) t.details ≡ ss) × (t.supported + length t.flags ≡ length ss)
  Reported ss (raised e) = Unit

  label_sentences-Reported :
      (premise : String) (ss : List String) → Reported ss (label_sentences upper nli premise ss)
  unfolding label_sentences add_label
  label_sentences-Reported premise [] = (refl, refl)
  label_sentences-Reported premise (s ∷ ss) =
      go (nli (entailment_input premise s)) (label_sentences upper nli premise ss)
        (label_sentences-Reported premise ss)
    where
      go :
          (out : Result (Label F)) (t : Result (ReportTally F))
          → Reported ss t
          → Reported (s ∷ ss) (
              out >>= λ out.
              t >>= λ rest. ok (add_label s (record out { label = upper out.label }) rest))
      go (raised e) t h = tt
      go (ok out) (raised e) h = tt
      go (ok out) (ok t) h = (
        ap (λ xs. s ∷ xs) h.0,
        elim (Bool-cases (is_entailment (upper out.label))) [
          | inl e ↦ rw (e, sym h.1) ground arith
          | inr e ↦ rw (e, sym h.1) ground arith
        ],
      )

module _ {F : Type 0} ⦃f : Float F⦄ (laws : IsFraction F) (upper : String → String)
    (str : Exception → String) where
  -- the claims of at least one sentence, counted
  counted-InRange :
      (s : String) (ss : List String) (cs : List (Claim F))
      → map (λ c. c.claim) cs ≡ s ∷ ss
      → InRange {F = F} (fraction (count_flagged cs) (length (s ∷ ss)))
  counted-InRange s ss cs h =
      fraction-InRange laws _ _ (omega arith)
        (omega (arith, count_flagged_le cs, length-map (λ c. c.claim) cs, ap length h))

  check_faithfulness-Scored :
      (nli : Nli F) (premise : String) (ss : List String)
      → Returned HasScore (check_faithfulness upper str nli premise ss)
  unfolding check_faithfulness faithfulness_of make_result Returned
  check_faithfulness-Scored nli premise [] = zero-InRange laws
  check_faithfulness-Scored nli premise (s ∷ ss) =
      go (check_claims upper nli premise (s ∷ ss)) (check_claims-Claimed upper nli premise (s ∷ ss))
    where
      go :
          (c : Result (List (Claim F)))
          → Claimed upper nli (s ∷ ss) c
          → Returned HasScore (c >>= λ claims. ok (faithfulness_of claims (length (s ∷ ss))))
      go (ok cs) h = counted-InRange s ss cs h
      go (raised e) h = tt

  check_recall-Scored :
      (nli : Nli F) (has_reference : Bool) (premise : String) (ss : List String)
      → Returned HasScore (check_recall upper str nli has_reference premise ss)
  unfolding check_recall recall_of make_result Returned
  check_recall-Scored nli has_reference premise [] = zero-InRange laws
  check_recall-Scored nli has_reference premise (s ∷ ss) =
      go (check_claims upper nli premise (s ∷ ss)) (check_claims-Claimed upper nli premise (s ∷ ss))
    where
      go :
          (c : Result (List (Claim F)))
          → Claimed upper nli (s ∷ ss) c
          → Returned HasScore
              (c >>= λ claims. ok (recall_of has_reference claims (length (s ∷ ss))))
      go (ok cs) h = counted-InRange s ss cs h
      go (raised e) h = tt

  supported_le : (n k l : ℕ) → k + l ≡ n → k ≤ n
  supported_le n k l h = omega arith

  report_sentences-Scored :
      (nli : Nli F) (premise : String) (ss : List String)
      → Returned HasScore (report_sentences upper nli premise ss >>= λ r. ok (hallucination_of r))
  unfolding report_sentences report_of hallucination_of make_result Returned
  report_sentences-Scored nli premise [] = zero-InRange laws
  report_sentences-Scored nli premise (s ∷ ss) =
      go (label_sentences upper nli premise (s ∷ ss))
        (label_sentences-Reported upper nli premise (s ∷ ss))
    where
      go :
          (t : Result (ReportTally F))
          → Reported upper nli (s ∷ ss) t
          → Returned HasScore (report_of (length (s ∷ ss)) t >>= λ r. ok (hallucination_of r))
      go (ok t) h = fraction-InRange laws _ _ (omega arith) (supported_le _ _ _ h.1)
      go (raised e) h = tt

  -- Whatever the classifier answers, and whether or not it or its loading raises, the scores of the
  -- faithfulness, the context recall and the hallucination evaluator lie between 0 and 1.
  pub scores-InRange :
      (get_nli : Result (Nli F)) (nli : Nli F) (sample : Sample F)
      → InRange (evaluate_faithfulness upper str get_nli sample).score
        × (InRange (evaluate_recall upper str get_nli sample).score
            × InRange (evaluate_hallucination upper str nli sample).score)
  unfolding evaluate_faithfulness evaluate_recall evaluate_hallucination hallucination_report
      make_result
  scores-InRange get_nli nli sample = (
    Returned-if (HasScore {F = F}) _ _ _ (zero-InRange laws) (
        Returned-caught (HasScore {F = F}) _ _ str _ (error_result-HasScore laws _ _)
          (Returned-bind (HasScore {F = F}) get_nli _ λ nli. check_faithfulness-Scored nli _ _)),
    (
      Returned-if (HasScore {F = F}) _ _ _ (zero-InRange laws) (
          Returned-caught (HasScore {F = F}) _ _ str _ (error_result-HasScore laws _ _)
            (Returned-bind (HasScore {F = F}) get_nli _ λ nli. check_recall-Scored nli _ _ _)),
      Returned-if (HasScore {F = F}) _ _ _ (zero-InRange laws) (
          Returned-caught (HasScore {F = F}) _ _ str _ (error_result-HasScore laws _ _)
            (report_sentences-Scored nli _ _)),
    ),
  )
