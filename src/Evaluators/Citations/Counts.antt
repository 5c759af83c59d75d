-- ===== src/Evaluators/Citations/Counts.antt =====
-- What evaluator/citation_correctness.py counts.
use llm_evaluation_pipeline.Prelude.{
  suc, ◌+◌, ◌≡◌, refl, inl, inr, Bool-cases, String, Bool, false, List, [], ◌∷◌, ◌++◌, ◌&&◌, not,
  if◌then◌else◌, text_comparable, length, length-append, select, arith,
}
use llm_evaluation_pipeline.Models.{ContextChunk, Citation}
use llm_evaluation_pipeline.App.{Result, ok, raised}
use llm_evaluation_pipeline.Text.{is_text}
use llm_evaluation_pipeline.Evaluators.{Nli, Label, ◌>>=◌}
use llm_evaluation_pipeline.Evaluators.Claims.{is_entailment, entailment_input}
use llm_evaluation_pipeline.Evaluators.Citations.{
  CitationTally, check_citation, check_citations, add_answer, add_checked, add_missing, source_text,
  no_citations,
}

module _ {F : Type 0} (upper : String → String) (nli : Nli F) (context : List ContextChunk) where
  abbrev answered : Result (Label F) → Bool
  answered (ok out) = is_entailment (upper out.label)
  answered (raised e) = false

  -- a citation with a source that entails its text
  unfoldable pub is_supported : Citation → Bool
  is_supported c =
      is_text (source_text context c)
      && answered (nli (entailment_input (source_text context c) c.text))

  abbrev pub lacks_source : Citation → Bool
  lacks_source c = not (is_text (source_text context c))

  -- `u` is `t` after one more citation, which is supported or lacks its source
  abbrev IsAfter : Bool → Bool → CitationTally → CitationTally → Type 0
  IsAfter supported missing t u =
      (u.valid ≡ (if supported then suc t.valid else t.valid))
      × ((u.missing_source ≡ (if missing then suc t.missing_source else t.missing_source))
          × ((u.valid + u.invalid + u.missing_source ≡ suc (t.valid + t.invalid + t.missing_source))
              × (length u.citations ≡ suc (length t.citations))))

  one_more : {A : Type 0} (x : A) (xs : List A) → length (xs ++ x ∷ []) ≡ suc (length xs)
  one_more x xs = omega (arith, length-append xs (x ∷ []))

  add_answer-IsAfter :
      (c : Citation) (out : Result (Label F)) (t : CitationTally)
      → IsAfter (answered out) false t (add_answer upper nli c (out >>= λ o. ok (upper o.label)) t)
  unfolding add_answer add_checked
  add_answer-IsAfter c (raised e) t = (refl, (refl, (ground arith, one_more _ t.citations)))
  add_answer-IsAfter c (ok out) t = elim (Bool-cases (is_entailment (upper out.label))) [
    | inl e ↦ rw e (refl, (refl, (ground arith, one_more _ t.citations)))
    | inr e ↦ rw e (refl, (refl, (ground arith, one_more _ t.citations)))
  ]

  check_citation-IsAfter :
      (c : Citation) (t : CitationTally)
      → IsAfter (is_supported c) (lacks_source c) t (check_citation upper nli context c t)
  unfolding check_citation is_supported add_missing
  check_citation-IsAfter c t = elim (Bool-cases (is_text (source_text context c))) [
    | inl e ↦ rw e (add_answer-IsAfter c (nli (entailment_input (source_text context c) c.text)) t)
    | inr e ↦ rw e (refl, (refl, (ground arith, one_more _ t.citations)))
  ]

  -- the numbers of `t` and of the citations that follow
  abbrev AreCounted : List Citation → CitationTally → CitationTally → Type 0
  AreCounted cs t u =
      (u.valid ≡ t.valid + length (select is_supported cs))
      × ((u.missing_source ≡ t.missing_source + length (select lacks_source cs))
          × ((u.valid + u.invalid + u.missing_source
                ≡ t.valid + t.invalid + t.missing_source + length cs)
              × (length u.citations ≡ length t.citations + length cs)))

  check_citations-AreCounted :
      (cs : List Citation) (t : CitationTally)
      → AreCounted cs t (check_citations upper nli context cs t)
  unfolding check_citations
  check_citations-AreCounted [] t = (omega arith, (omega arith, (omega arith, omega arith)))
  check_citations-AreCounted (c ∷ cs) t =
      go (check_citation upper nli context c t) (is_supported c) (lacks_source c)
        (select is_supported cs) (select lacks_source cs) (check_citation-IsAfter c t)
        (check_citations upper nli context cs (check_citation upper nli context c t))
        (check_citations-AreCounted cs (check_citation upper nli context c t))
    where
      go :
          (t' : CitationTally) (s l : Bool) (ss ls : List Citation)
          → IsAfter s l t t'
          → (u : CitationTally)
          → (u.valid ≡ t'.valid + length ss)
            × ((u.missing_source ≡ t'.missing_source + length ls)
                × ((u.valid + u.invalid + u.missing_source
                      ≡ t'.valid + t'.invalid + t'.missing_source + length cs)
                    × (length u.citations ≡ length t'.citations + length cs)))
          → (u.valid ≡ t.valid + length (if s then c ∷ ss else ss))
            × ((u.missing_source ≡ t.missing_source + length (if l then c ∷ ls else ls))
                × ((u.valid + u.invalid + u.missing_source
                      ≡ t.valid + t.invalid + t.missing_source + length (c ∷ cs))
                    × (length u.citations ≡ length t.citations + length (c ∷ cs))))
      go t' s l ss ls h u k = (
        ground arith,
        (ground arith, (omega (arith, h.1.1.0, k.1.1.0), omega (arith, h.1.1.1, k.1.1.1))),
      )

  -- The counts of the loop over all citations are those of an independent reading: `valid` counts the
  -- citations whose source is found and entails the cited text, `missing_source` those without a source;
  -- with `invalid` they make up all citations, and each citation has one entry.
  pub check_citations-counts :
      (cs : List Citation)
      → let u = check_citations upper nli context cs no_citations in
        (u.valid ≡ length (select is_supported cs))
        × ((u.missing_source ≡ length (select lacks_source cs))
            × ((u.valid + u.invalid + u.missing_source ≡ length cs)
                × (length u.citations ≡ length cs)))
  check_citations-counts cs =
      let h = check_citations-AreCounted cs no_citations in
      (omega (arith, h.0), (omega (arith, h.1.0), (omega (arith, h.1.1.0), omega (arith, h.1.1.1))))
