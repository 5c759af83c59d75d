-- ===== src/Evaluators/Citations.antt =====
-- evaluator/citation_correctness.py.
pub mod Counts
mod Tests
use llm_evaluation_pipeline.Prelude.{
  ℕ, zero, suc, ◌+◌, String, Bool, true, false, Option, none, some, List, [], ◌∷◌, ◌++◌, ◌&&◌, not,
  if◌then◌else◌, ◌==◌, text_comparable, length,
}
use llm_evaluation_pipeline.Number.{Float, zero_float, one_float}
use llm_evaluation_pipeline.Metric.{MetricResult}
use llm_evaluation_pipeline.Models.{ContextChunk, Citation}
use llm_evaluation_pipeline.App.{prefix, Exception, Result, ok, raised}
use llm_evaluation_pipeline.Text.{is_text, occurs_in}
use llm_evaluation_pipeline.Evaluators.{
  Sample, CitationCheck, Details, citation_details, Nli, ◌>>=◌, make_result, fraction, caught,
}
use llm_evaluation_pipeline.Evaluators.Claims.{is_entailment, entailment_input}

-- the variables of the loop; `label` keeps its value from one turn to the next
pub record CitationTally : Type 0 where
  pub valid : ℕ
  pub invalid : ℕ
  pub missing_source : ℕ
  pub citations : List CitationCheck
  pub label : Option String

abbrev pub no_citations : CitationTally
no_citations = record { valid = 0; invalid = 0; missing_source = 0; citations = []; label = none }

-- `context_map.get(source_id, "")`: of the chunks with one id the last is in the map
unfoldable pub mapped_text : String → List ContextChunk → Option String
mapped_text source_id [] = none
mapped_text source_id (c ∷ cs) = elim (mapped_text source_id cs) [
  | none ↦ if c.id == source_id then some c.text else none
  | some t ↦ some t
]

-- the first text of the context with the start of the cited text in it
unfoldable pub similar_text : String → List ContextChunk → String
similar_text cited_text [] = ""
similar_text cited_text (c ∷ cs) =
    let rest = similar_text cited_text cs in
    if is_text cited_text && occurs_in (prefix 50 cited_text) c.text then c.text else rest

abbrev pub or_empty : Option String → String
or_empty none = ""
or_empty (some t) = t

-- `source_text`
unfoldable pub source_text : List ContextChunk → Citation → String
source_text context citation =
    let mapped = or_empty (mapped_text citation.source_id context) in
    if not (is_text mapped) && is_text citation.source_id
    then similar_text citation.text context
    else mapped

-- a citation whose source is not found
unfoldable pub add_missing : Citation → CitationTally → CitationTally
add_missing c t = record t {
  missing_source = suc t.missing_source;
  citations =
      t.citations
      ++ record {
        source_id = c.source_id;
        cited_text = prefix 200 c.text;
        valid = false;
        reason = some "source_not_found";
        nli_label = none;
      }
        ∷ [];
}

-- `label if "label" in dir() else "unknown"`
abbrev pub label_or_unknown : Option String → String
label_or_unknown none = "unknown"
label_or_unknown (some l) = l

-- a citation with a source; `label` is that of this turn, or what the variable held before
unfoldable pub add_checked : Citation → Bool → Option String → CitationTally → CitationTally
add_checked c is_valid label t = record t {
  valid = if is_valid then suc t.valid else t.valid;
  invalid = if is_valid then t.invalid else suc t.invalid;
  citations =
      t.citations
      ++ record {
        source_id = c.source_id;
        cited_text = prefix 200 c.text;
        valid = is_valid;
        reason = none;
        nli_label = some (label_or_unknown label);
      }
        ∷ [];
  label = label;
}

module _ {F : Type 0} (upper : String → String) (nli : Nli F) where
  unfoldable pub add_answer : Citation → Result String → CitationTally → CitationTally
  add_answer c (ok label) t = add_checked c (is_entailment label) (some label) t
  add_answer c (raised e) t = add_checked c false t.label t

  -- one turn of the loop
  unfoldable pub check_citation : List ContextChunk → Citation → CitationTally → CitationTally
  check_citation context c t =
      if not (is_text (source_text context c))
      then add_missing c t
      else add_answer c
          (nli (entailment_input (source_text context c) c.text) >>= λ out. ok (upper out.label)) t

  unfoldable pub check_citations : List ContextChunk → List Citation → CitationTally → CitationTally
  check_citations context [] t = t
  check_citations context (c ∷ cs) t = check_citations context cs (check_citation context c t)

module _ {F : Type 0} ⦃f : Float F⦄ where
  unfoldable pub citations_of : ℕ → CitationTally → MetricResult F (Details F)
  citations_of total t =
      let score = fraction t.valid total in
      make_result "citation_correctness" "1.0.0" score (f.le (f.lit 5 1) score)
        (citation_details total t.valid t.invalid t.missing_source (some t.citations))

  -- `CitationCorrectnessEvaluator.evaluate`
  unfoldable pub evaluate_citations :
      (String → String)
      → (Exception → String)
      → Result (Nli F)
      → Sample F
      → MetricResult F (Details F)
  evaluate_citations upper str get_nli sample = elim sample.citations [
    | [] ↦ make_result "citation_correctness" "1.0.0" one_float true (citation_details 0 0 0 0 none)
    | c ∷ cs ↦ caught "citation_correctness" "1.0.0" str (
        get_nli >>= λ nli. ok (
          citations_of (length (c ∷ cs))
            (check_citations upper nli sample.context (c ∷ cs) no_citations)))
  ]
