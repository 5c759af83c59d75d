-- ===== src/Evaluators/Citations/Tests.antt =====
-- A witness of the theorem on evaluator/citation_correctness.py.
use llm_evaluation_pipeline.Prelude.{
  ◌+◌, ◌≡◌, List, [], ◌∷◌, ◌==◌, text_comparable, if◌then◌else◌, length, select,
}
use llm_evaluation_pipeline.Number.Fixed.{Fixed, fixed_float}
use llm_evaluation_pipeline.Models.{ContextChunk, Citation}
use llm_evaluation_pipeline.App.{ok, raised, value_error}
use llm_evaluation_pipeline.Evaluators.{Nli}
use llm_evaluation_pipeline.Evaluators.Citations.{check_citations, no_citations}
use llm_evaluation_pipeline.Evaluators.Citations.Counts.{
  is_supported, lacks_source, check_citations-counts,
}

-- entails one text, and raises on the others
abbrev picky : Nli Fixed
picky s =
    if s == "It is cold. </s></s> Cold"
    then ok (record { label = "ENTAILMENT"; score = fixed_float.lit 9 1 })
    else raised value_error

abbrev weather : List ContextChunk
weather = record { id = "c1"; text = "It is cold." } ∷ record { id = "c2"; text = "It rains." } ∷ []

abbrev three : List Citation
three =
    record { source_id = "c1"; text = "Cold" }
    ∷ record { source_id = "c2"; text = "Dry" }
    ∷ record { source_id = "c9"; text = "Hot" }
    ∷ []

check_citations-counts_example :
    ((check_citations (λ s. s) picky weather three no_citations).valid
      ≡ length (select (is_supported (λ s. s) picky weather) three))
    × (((check_citations (λ s. s) picky weather three no_citations).missing_source
          ≡ length (select (lacks_source (λ s. s) picky weather) three))
        × (((check_citations (λ s. s) picky weather three no_citations).valid
                + (check_citations (λ s. s) picky weather three no_citations).invalid
                + (check_citations (λ s. s) picky weather three no_citations).missing_source
              ≡ 3)
            × (length (check_citations (λ s. s) picky weather three no_citations).citations ≡ 3)))
check_citations-counts_example = check_citations-counts (λ s. s) picky weather three
