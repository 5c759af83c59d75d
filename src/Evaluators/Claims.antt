-- ===== src/Evaluators/Claims.antt =====
-- The evaluators that ask the classifier about each sentence: evaluator/faithfulness.py,
-- evaluator/context_recall.py and evaluator/hallucination.py.
pub mod Agree
pub mod Bounds
mod Tests
use Prim.Native.String.{◌++◌}
use llm_evaluation_pipeline.Prelude.{
  ℕ, zero, suc, ◌+◌, String, Bool, true, false, Option, none, some, List, [], ◌∷◌, ◌||◌, not,
  if◌then◌else◌, ◌==◌, text_comparable, length, is_empty,
}
use llm_evaluation_pipeline.Number.{Float, zero_float}
use llm_evaluation_pipeline.Metric.{MetricResult}
use llm_evaluation_pipeline.Models.{ContextChunk}
use llm_evaluation_pipeline.App.{Exception, Result, ok, raised}
use llm_evaluation_pipeline.Text.{is_text, join, split_sentences}
use llm_evaluation_pipeline.Evaluators.{
  Sample, Label, Claim, Flag, SentenceLabel, Details, no_details, faithfulness_details,
  recall_details, hallucination_details, Nli, ◌>>=◌, make_result, error_result, fraction, caught,
  texts,
}

-- `label in ("ENTAILMENT", "LABEL_2")`
unfoldable pub is_entailment : String → Bool
is_entailment label = label == "ENTAILMENT" || label == "LABEL_2"

-- `label in ("CONTRADICTION", "LABEL_0")`
unfoldable pub is_contradiction : String → Bool
is_contradiction label = label == "CONTRADICTION" || label == "LABEL_0"

-- the input of the classifier
abbrev pub entailment_input : String → String → String
entailment_input premise s = premise ++ (" </s></s> " ++ s)

-- the report, a dictionary with these keys
pub record Report (F : Type 0) : Type 0 where
  pub fraction_supported : F
  pub flags : List Flag
  pub details : List (SentenceLabel F)

-- the variables of the report's loop
pub record ReportTally (F : Type 0) : Type 0 where
  pub supported : ℕ
  pub flags : List Flag
  pub details : List (SentenceLabel F)

module _ {F : Type 0} where
  -- `supported_count`
  unfoldable pub count_flagged : List (Claim F) → ℕ
  count_flagged [] = 0
  count_flagged (c ∷ cs) = let rest = count_flagged cs in if c.flag then suc rest else rest

  unfoldable pub add_label : String → Label F → ReportTally F → ReportTally F
  add_label s out t = record {
    supported = if is_entailment out.label then suc t.supported else t.supported;
    flags =
        if is_entailment out.label
        then t.flags
        else (record {
          sentence = s;
          label = if is_contradiction out.label then "CONTRADICTION" else "UNSUPPORTED";
        }
            ∷ t.flags);
    details = record { sentence = s; label = out.label; score = out.score } ∷ t.details;
  }

module _ {F : Type 0} ⦃f : Float F⦄ where
  unfoldable pub report_of : ℕ → Result (ReportTally F) → Result (Report F)
  report_of n t = t >>= λ tally. ok (record {
    fraction_supported = fraction tally.supported n;
    flags = tally.flags;
    details = tally.details;
  })

module _ {F : Type 0} ⦃f : Float F⦄ (upper : String → String) (nli : Nli F) where
  -- the loop over the sentences of an answer
  unfoldable pub check_claims : String → List String → Result (List (Claim F))
  check_claims premise [] = ok []
  check_claims premise (s ∷ ss) = nli (entailment_input premise s) >>= λ out.
      check_claims premise ss >>= λ rest. ok (
        record {
          claim = s;
          flag = is_entailment (upper out.label);
          label = upper out.label;
          confidence = f.round out.score 4;
        }
        ∷ rest)

  -- the loop of the report; entries are put in front of those of the sentences that follow
  unfoldable pub label_sentences : String → List String → Result (ReportTally F)
  label_sentences premise [] = ok (record { supported = 0; flags = []; details = [] })
  label_sentences premise (s ∷ ss) = nli (entailment_input premise s) >>= λ out.
      label_sentences premise ss >>= λ rest.
      ok (add_label s (record out { label = upper out.label }) rest)

  unfoldable pub report_sentences : String → List String → Result (Report F)
  report_sentences premise [] =
      ok (record { fraction_supported = zero_float; flags = []; details = [] })
  report_sentences premise (s ∷ ss) = report_of (length (s ∷ ss)) (label_sentences premise (s ∷ ss))

  unfoldable pub hallucination_report : String → List ContextChunk → Result (Report F)
  hallucination_report answer chunks =
      report_sentences (join " " (texts chunks)) (split_sentences answer)

module _ {F : Type 0} ⦃f : Float F⦄ where
  -- `score >= 0.5`
  abbrev pub is_half : F → Bool
  is_half score = f.le (f.lit 5 1) score

  abbrev pub no_claims : MetricResult F (Details F)
  no_claims = make_result "faithfulness" "1.0.0" zero_float false (faithfulness_details [] 0 0)

  unfoldable pub faithfulness_of : List (Claim F) → ℕ → MetricResult F (Details F)
  faithfulness_of claims n =
      let score = fraction (count_flagged claims) n in
      make_result "faithfulness" "1.0.0" score (is_half score)
        (faithfulness_details claims n (count_flagged claims))

  abbrev pub nothing_recalled : MetricResult F (Details F)
  nothing_recalled =
      make_result "context_recall" "1.0.0" zero_float false (recall_details 0 0 none none)

  unfoldable pub recall_of : Bool → List (Claim F) → ℕ → MetricResult F (Details F)
  recall_of has_reference claims n =
      let score = fraction (count_flagged claims) n in
      make_result "context_recall" "1.0.0" score (is_half score)
        (recall_details n (count_flagged claims) (some claims) (some has_reference))

  -- `sample.reference_answer or sample.answer`
  unfoldable pub text_to_check : Sample F → String
  text_to_check sample =
      if is_text sample.reference_answer then sample.reference_answer else sample.answer

  unfoldable pub hallucination_of : Report F → MetricResult F (Details F)
  hallucination_of r =
      make_result "hallucination" "1.0.0" r.fraction_supported (is_half r.fraction_supported)
        (hallucination_details r.fraction_supported (some r.flags) (some r.details))

module _ {F : Type 0} ⦃f : Float F⦄ (upper : String → String) (str : Exception → String) where
  unfoldable pub check_faithfulness :
      Nli F → String → List String → Result (MetricResult F (Details F))
  check_faithfulness nli premise [] = ok no_claims
  check_faithfulness nli premise (s ∷ ss) = check_claims upper nli premise (s ∷ ss) >>= λ claims.
      ok (faithfulness_of claims (length (s ∷ ss)))

  -- `FaithfulnessEvaluator.evaluate`; `get_nli` is the loading of the model
  unfoldable pub evaluate_faithfulness : Result (Nli F) → Sample F → MetricResult F (Details F)
  evaluate_faithfulness get_nli sample =
      if not (is_text sample.answer) || is_empty sample.context
      then no_claims
      else caught "faithfulness" "1.0.0" str (
          get_nli >>= λ nli.
          check_faithfulness nli (join " " (texts sample.context)) (split_sentences sample.answer))

  unfoldable pub check_recall :
      Nli F → Bool → String → List String → Result (MetricResult F (Details F))
  check_recall nli has_reference premise [] = ok nothing_recalled
  check_recall nli has_reference premise (s ∷ ss) =
      check_claims upper nli premise (s ∷ ss) >>= λ claims.
      ok (recall_of has_reference claims (length (s ∷ ss)))

  -- `ContextRecallEvaluator.evaluate`
  unfoldable pub evaluate_recall : Result (Nli F) → Sample F → MetricResult F (Details F)
  evaluate_recall get_nli sample =
      if is_empty sample.context || not (is_text (text_to_check sample))
      then nothing_recalled
      else caught "context_recall" "1.0.0" str (
          get_nli >>= λ nli.
          check_recall nli (is_text sample.reference_answer) (join " " (texts sample.context))
            (split_sentences (text_to_check sample)))

  -- `HallucinationEvaluator.evaluate`
  unfoldable pub evaluate_hallucination : Nli F → Sample F → MetricResult F (Details F)
  evaluate_hallucination nli sample =
      if not (is_text sample.answer) || is_empty sample.context
      then make_result "hallucination" "1.0.0" zero_float false
          (hallucination_details zero_float none none)
      else caught "hallucination" "1.0.0" str (
          hallucination_report upper nli sample.answer sample.context >>= λ r.
          ok (hallucination_of r))
