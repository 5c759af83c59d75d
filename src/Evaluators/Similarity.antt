-- ===== src/Evaluators/Similarity.antt =====
-- The evaluators that compare embeddings: evaluator/relevance.py, evaluator/context_precision.py and
-- evaluator/answer_relevancy.py.
pub mod Precision
use llm_evaluation_pipeline.Prelude.{
  ℕ, suc, String, Bool, true, false, none, some, List, [], ◌∷◌, ◌||◌, not, if◌then◌else◌, length,
  take, is_empty,
}
use llm_evaluation_pipeline.Number.{Float, zero_float, one_float}
use llm_evaluation_pipeline.Metric.{MetricResult}
use llm_evaluation_pipeline.Models.{ContextChunk}
use llm_evaluation_pipeline.App.{prefix, Exception, Result, ok, raised}
use llm_evaluation_pipeline.Text.{is_text, join, split_sentences}
use llm_evaluation_pipeline.Evaluators.{
  Sample, ChunkScore, Details, no_details, relevancy_details, precision_details, ◌>>=◌, make_result,
  fraction, caught, texts,
}

-- the model of sentence_transformers with `util.cos_sim`; both may raise
pub record Embedder (F E : Type 0) : Type 0 where
  pub encode : String → Result E
  pub cos_sim : E → E → Result F

module _ {F : Type 0} ⦃f : Float F⦄ where
  -- `round((similarity + 1) / 2, 4)`
  unfoldable pub normalized : F → F
  normalized similarity = f.round (f.div (f.add similarity one_float) (f.lit 2 0)) 4

  -- `normalized >= self.RELEVANCE_THRESHOLD`
  abbrev pub is_relevant : F → Bool
  is_relevant score = f.le (f.lit 3 1) score

  -- `relevant_count`
  unfoldable pub count_relevant : List (ChunkScore F) → ℕ
  count_relevant [] = 0
  count_relevant (c ∷ cs) = let rest = count_relevant cs in if c.relevant then suc rest else rest

  unfoldable pub precision_of : List ContextChunk → List (ChunkScore F) → MetricResult F (Details F)
  precision_of context chunks =
      let precision = fraction (count_relevant chunks) (length context) in
      make_result "context_precision" "1.0.0" precision (f.le (f.lit 5 1) precision)
        (precision_details (length context) (count_relevant chunks) (some chunks))

  -- the weighted average of the direct similarity and those of the sentences
  unfoldable pub combine : F → List F → F
  combine direct [] = direct
  combine direct (s ∷ ss) =
      f.round
        (f.add (f.mul (f.lit 6 1) direct)
          (f.mul (f.lit 4 1) (f.div (f.sum (s ∷ ss)) (f.lit (length (s ∷ ss)) 0))))
        4

  -- `num_hypotheticals` is the length of the list
  unfoldable pub relevancy_of : F → List F → MetricResult F (Details F)
  relevancy_of direct scores =
      make_result "answer_relevancy" "1.0.0" (combine direct scores)
        (f.le (f.lit 5 1) (combine direct scores)) (relevancy_details direct (some scores))

  unfoldable pub relevance_of : F → MetricResult F (Details F)
  relevance_of score = make_result "relevance" "1.0.0" score (f.le (f.lit 5 1) score) no_details

module _ {F E : Type 0} ⦃f : Float F⦄ (m : Embedder F E) where
  -- encode both texts, compare, normalise
  unfoldable pub similarity : String → String → Result F
  similarity a b = m.encode a >>= λ emb_a.
      m.encode b >>= λ emb_b. m.cos_sim emb_a emb_b >>= λ c. ok (normalized c)

  -- compare with a text already encoded
  unfoldable pub similarity_to : E → String → Result F
  similarity_to emb text = m.encode text >>= λ t. m.cos_sim emb t >>= λ c. ok (normalized c)

  unfoldable pub chunk_score : E → String → Result (ChunkScore F)
  chunk_score q text = similarity_to q text >>= λ s.
      ok (record { text = prefix 200 text; score = s; relevant = is_relevant s })

  -- the loop over the chunks; chunks without text are skipped
  unfoldable pub score_chunks : E → List ContextChunk → Result (List (ChunkScore F))
  score_chunks q [] = ok []
  score_chunks q (c ∷ cs) =
      let rest = score_chunks q cs in
      if not (is_text c.text)
      then rest
      else chunk_score q c.text >>= λ s. rest >>= λ ss. ok (s ∷ ss)

  -- the loop over the first sentences
  unfoldable pub score_sentences : E → List String → Result (List F)
  score_sentences q [] = ok []
  score_sentences q (s ∷ ss) = similarity_to q s >>= λ x. score_sentences q ss >>= λ xs. ok (x ∷ xs)

module _ {F E : Type 0} ⦃f : Float F⦄ (get_model : Result (Embedder F E)) where
  -- `context` is None or empty, or a dictionary with these chunks
  unfoldable pub relevance_score : String → List ContextChunk → Bool → Result F
  relevance_score answer chunks has_context =
      if not (is_text answer) || not has_context
      then ok zero_float
      else get_model >>= λ m. similarity m answer (join " " (texts chunks))

module _ {F E : Type 0} ⦃f : Float F⦄ (str : Exception → String)
    (get_model : Result (Embedder F E)) where
  -- `RelevanceEvaluator.evaluate`
  unfoldable pub evaluate_relevance : Sample F → MetricResult F (Details F)
  evaluate_relevance sample =
      if not (is_text sample.answer) || is_empty sample.context
      then make_result "relevance" "1.0.0" zero_float false no_details
      else caught "relevance" "1.0.0" str (
          get_model >>= λ m.
          similarity m sample.answer (join " " (texts sample.context)) >>= λ s. ok (relevance_of s))

  -- `ContextPrecisionEvaluator.evaluate`
  unfoldable pub evaluate_precision : Sample F → MetricResult F (Details F)
  evaluate_precision sample =
      if not (is_text sample.question) || is_empty sample.context
      then make_result "context_precision" "1.0.0" zero_float false (precision_details 0 0 none)
      else caught "context_precision" "1.0.0" str (
          get_model >>= λ m. m.encode sample.question >>= λ q.
          score_chunks m q sample.context >>= λ chunks. ok (precision_of sample.context chunks))

  -- `AnswerRelevancyEvaluator.evaluate`
  unfoldable pub evaluate_relevancy : Sample F → MetricResult F (Details F)
  evaluate_relevancy sample =
      if not (is_text sample.question) || not (is_text sample.answer)
      then make_result "answer_relevancy" "1.0.0" zero_float false
          (relevancy_details zero_float none)
      else caught "answer_relevancy" "1.0.0" str (
          get_model >>= λ m. m.encode sample.question >>= λ q. m.encode sample.answer >>= λ a.
          m.cos_sim q a >>= λ c.
          score_sentences m q (take 5 (split_sentences sample.answer)) >>= λ scores.
          ok (relevancy_of (normalized c) scores))
