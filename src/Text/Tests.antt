-- ===== src/Text/Tests.antt =====
-- A witness of the theorem on the splitting of texts.
use llm_evaluation_pipeline.Prelude.{◌≡◌, true, [], All}
use llm_evaluation_pipeline.Text.{is_text, split_sentences}
use llm_evaluation_pipeline.Text.Sentences.{solid, solids, split_sentences-solid}

split_sentences-solid_example :
    (solids (split_sentences "It is cold. It rains.. No") ≡ solid "It is cold. It rains.. No" [])
    × All (λ p. is_text p ≡ true) (split_sentences "It is cold. It rains.. No")
split_sentences-solid_example = split_sentences-solid "It is cold. It rains.. No"
