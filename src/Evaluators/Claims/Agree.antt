-- ===== src/Evaluators/Claims/Agree.antt =====
-- evaluator/faithfulness.py, evaluator/hallucination.py and evaluator/context_recall.py compared.
use llm_evaluation_pipeline.Prelude.{
  ℕ, ◌||◌, inl, inr, Bool-cases, if◌then◌else◌, ◌≡◌, refl, String, Bool, false, Option, none, some,
  List, [], ◌∷◌, is_empty, length, sym, ◌∙◌, arith, not,
}
use llm_evaluation_pipeline.Number.{Float, zero_float}
use llm_evaluation_pipeline.Metric.{MetricResult}
use llm_evaluation_pipeline.App.{Exception, Result, ok, raised}
use llm_evaluation_pipeline.Text.{is_text, join, split_sentences}
use llm_evaluation_pipeline.Evaluators.{
  Sample, Label, Claim, Details, Nli, ◌>>=◌, make_result, fraction, caught, texts, error_result,
}
use llm_evaluation_pipeline.Evaluators.Claims.{
  check_claims, label_sentences, ReportTally, add_label, count_flagged, is_entailment,
  check_faithfulness, check_recall, report_sentences, hallucination_of, evaluate_faithfulness,
  evaluate_recall, evaluate_hallucination, faithfulness_of, recall_of, is_half, entailment_input,
  hallucination_report, report_of, text_to_check,
}

-- what an evaluation decides: score, passed and error
abbrev Verdict : Type 0 → Type 0
Verdict F = F × (Option Bool × Option String)

module _ {F : Type 0} where
  unfoldable pub verdict : MetricResult F (Details F) → Verdict F
  verdict r = (r.score, (r.passed, r.error))

module _ {F : Type 0} ⦃f : Float F⦄ (upper : String → String) (str : Exception → String)
    (nli : Nli F) where
  -- what sentences come to, from the number of the supported ones
  abbrev outcome : List String → Result ℕ → Verdict F
  outcome [] r = (zero_float, (some false, none))
  outcome (s ∷ ss) (ok k) =
      (fraction k (length (s ∷ ss)), (some (is_half {F = F} (fraction k (length (s ∷ ss)))), none))
  outcome (s ∷ ss) (raised e) = (zero_float, (some false, some (str e)))

  same_count :
      (premise : String) (ss : List String)
      → (check_claims upper nli premise ss >>= λ cs. ok (count_flagged cs))
        ≡ (label_sentences upper nli premise ss >>= λ t. ok t.supported)
  unfolding check_claims label_sentences count_flagged add_label
  same_count premise [] = refl
  same_count premise (s ∷ ss) =
      go (nli (entailment_input premise s)) (check_claims upper nli premise ss)
        (label_sentences upper nli premise ss) (same_count premise ss)
    where
      go :
          (out : Result (Label F)) (c : Result (List (Claim F))) (t : Result (ReportTally F))
          → (c >>= λ cs. ok (count_flagged cs)) ≡ (t >>= λ t. ok t.supported)
          → ((out >>= λ out. c >>= λ rest. ok (
                record {
                  claim = s;
                  flag = is_entailment (upper out.label);
                  label = upper out.label;
                  confidence = f.round out.score 4;
                }
                ∷ rest))
              >>= λ cs. ok (count_flagged cs))
            ≡ ((out >>= λ out.
                  t >>= λ rest. ok (add_label s (record out { label = upper out.label }) rest))
                >>= λ t. ok t.supported)
      go (raised e) c t h = refl
      go (ok out) (raised e) (raised e') h = cc
      go (ok out) (ok cs) (raised e') h = cc
      go (ok out) (raised e) (ok t) h = cc
      go (ok out) (ok cs) (ok t) h = ground arith

  -- the number of the sentences that the classifier supports
  abbrev supported_count : String → List String → Result ℕ
  supported_count premise ss = check_claims upper nli premise ss >>= λ cs. ok (count_flagged cs)

  check_faithfulness-outcome :
      (premise : String) (ss : List String)
      → verdict (caught "faithfulness" "1.0.0" str (check_faithfulness upper str nli premise ss))
        ≡ outcome ss (supported_count premise ss)
  unfolding verdict caught check_faithfulness faithfulness_of make_result error_result
  check_faithfulness-outcome premise [] = refl
  check_faithfulness-outcome premise (s ∷ ss) = go (check_claims upper nli premise (s ∷ ss))
    where
      go :
          (c : Result (List (Claim F)))
          → verdict (
              caught "faithfulness" "1.0.0" str
                (c >>= λ claims. ok (faithfulness_of claims (length (s ∷ ss)))))
            ≡ outcome (s ∷ ss) (c >>= λ cs. ok (count_flagged cs))
      go (ok cs) = refl
      go (raised e) = refl

  check_recall-outcome :
      (has_reference : Bool) (premise : String) (ss : List String)
      → verdict (
          caught "context_recall" "1.0.0" str (check_recall upper str nli has_reference premise ss))
        ≡ outcome ss (supported_count premise ss)
  unfolding verdict caught check_recall recall_of make_result error_result
  check_recall-outcome has_reference premise [] = refl
  check_recall-outcome has_reference premise (s ∷ ss) = go (check_claims upper nli premise (s ∷ ss))
    where
      go :
          (c : Result (List (Claim F)))
          → verdict (
              caught "context_recall" "1.0.0" str
                (c >>= λ claims. ok (recall_of has_reference claims (length (s ∷ ss)))))
            ≡ outcome (s ∷ ss) (c >>= λ cs. ok (count_flagged cs))
      go (ok cs) = refl
      go (raised e) = refl

  report_sentences-outcome :
      is_half {F = F} zero_float ≡ false
      → (premise : String) (ss : List String)
      → verdict (
          caught "hallucination" "1.0.0" str
            (report_sentences upper nli premise ss >>= λ r. ok (hallucination_of r)))
        ≡ outcome ss (supported_count premise ss)
  unfolding verdict caught report_sentences report_of hallucination_of make_result error_result
  report_sentences-outcome half premise [] = rw half refl
  report_sentences-outcome half premise (s ∷ ss) =
      go (label_sentences upper nli premise (s ∷ ss)) (supported_count premise (s ∷ ss))
        (same_count premise (s ∷ ss))
    where
      go :
          (t : Result (ReportTally F)) (k : Result ℕ)
          → k ≡ (t >>= λ t. ok t.supported)
          → verdict (
              caught "hallucination" "1.0.0" str
                (report_of (length (s ∷ ss)) t >>= λ r. ok (hallucination_of r)))
            ≡ outcome (s ∷ ss) k
      go (ok t) k h = rw h refl
      go (raised e) k h = rw h refl

module _ {F : Type 0} ⦃f : Float F⦄ (upper : String → String) (str : Exception → String)
    (nli : Nli F) where
  -- what the three evaluators have in common: no text or no context is a failure without an error
  unfoldable agreed_verdict : Sample F → Verdict F
  agreed_verdict sample =
      if not (is_text sample.answer) || is_empty sample.context
      then (zero_float, (some false, none))
      else outcome upper str nli (split_sentences sample.answer) (
          supported_count upper str nli (join " " (texts sample.context))
            (split_sentences sample.answer))

  evaluate_faithfulness-agreed :
      (sample : Sample F)
      → verdict (evaluate_faithfulness upper str (ok nli) sample) ≡ agreed_verdict sample
  unfolding evaluate_faithfulness agreed_verdict verdict make_result
  evaluate_faithfulness-agreed sample =
      elim (Bool-cases (not (is_text sample.answer) || is_empty sample.context)) [
        | inl e ↦ rw e refl
        | inr e ↦ rw e (check_faithfulness-outcome upper str nli _ _)
      ]

  evaluate_hallucination-agreed :
      is_half {F = F} zero_float ≡ false
      → (sample : Sample F)
      → verdict (evaluate_hallucination upper str nli sample) ≡ agreed_verdict sample
  unfolding evaluate_hallucination agreed_verdict verdict make_result hallucination_report
  evaluate_hallucination-agreed half sample =
      elim (Bool-cases (not (is_text sample.answer) || is_empty sample.context)) [
        | inl e ↦ rw e refl
        | inr e ↦ rw e (report_sentences-outcome upper str nli half _ _)
      ]

  evaluate_recall-agreed :
      (sample : Sample F)
      → is_text sample.reference_answer ≡ false
      → verdict (evaluate_recall upper str (ok nli) sample) ≡ agreed_verdict sample
  unfolding evaluate_recall agreed_verdict verdict make_result text_to_check
  evaluate_recall-agreed sample no_reference = elim (Bool-cases (is_text sample.answer)) [
    | inl a ↦ elim (Bool-cases (is_empty sample.context)) [
      | inl c ↦ rw (no_reference, a, c) refl
      | inr c ↦ rw (no_reference, a, c) (check_recall-outcome upper str nli _ _ _)
    ]
    | inr a ↦ elim (Bool-cases (is_empty sample.context)) [
      | inl c ↦ rw (no_reference, a, c) refl
      | inr c ↦ rw (no_reference, a, c) refl
    ]
  ]

  -- With the classifier loaded, the hallucination evaluator gives every sample the score, the verdict
  -- and the error that the faithfulness evaluator gives it, though each has its own loop, tests and
  -- report. The hypothesis is that half is above 0.
  pub hallucination-faithfulness_agree :
      is_half {F = F} zero_float ≡ false
      → (sample : Sample F)
      → verdict (evaluate_hallucination upper str nli sample)
        ≡ verdict (evaluate_faithfulness upper str (ok nli) sample)
  hallucination-faithfulness_agree half sample =
      evaluate_hallucination-agreed half sample ∙ sym (evaluate_faithfulness-agreed sample)

  -- A sample without a reference answer gets from the context recall evaluator the score, the verdict
  -- and the error that it gets from the faithfulness evaluator, the classifier loaded.
  pub recall-faithfulness_agree :
      (sample : Sample F)
      → is_text sample.reference_answer ≡ false
      → verdict (evaluate_recall upper str (ok nli) sample)
        ≡ verdict (evaluate_faithfulness upper str (ok nli) sample)
  recall-faithfulness_agree sample no_reference =
      evaluate_recall-agreed sample no_reference ∙ sym (evaluate_faithfulness-agreed sample)
