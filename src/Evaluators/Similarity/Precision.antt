-- ===== src/Evaluators/Similarity/Precision.antt =====
-- The range of the score of evaluator/context_precision.py.
mod Tests
use Prim.Native.Nat.{◌<◌}
use llm_evaluation_pipeline.Prelude.{
  ℕ, zero, suc, ◌+◌, ◌≤◌, ◌≡◌, refl, inl, inr, Bool-cases, String, Bool, true, false, List, [], ◌∷◌,
  ◌||◌, not, if◌then◌else◌, length, is_empty, arith, select,
}
use llm_evaluation_pipeline.Number.{Float}
use llm_evaluation_pipeline.Models.{ContextChunk}
use llm_evaluation_pipeline.App.{Exception, Result, ok, raised}
use llm_evaluation_pipeline.Text.{is_text}
use llm_evaluation_pipeline.Evaluators.{Sample, ChunkScore, Details, ◌>>=◌, make_result, fraction}
use llm_evaluation_pipeline.Evaluators.Returned.{
  Returned, Returned-bind, Returned-if, Returned-unless, Returned-caught,
}
use llm_evaluation_pipeline.Evaluators.Range.{
  IsFraction, InRange, fraction-InRange, zero-InRange, HasScore, error_result-HasScore,
}
use llm_evaluation_pipeline.Evaluators.Similarity.{
  Embedder, score_chunks, chunk_score, count_relevant, precision_of, evaluate_precision,
}

select_le : {A : Type 0} (p : A → Bool) (xs : List A) → length (select p xs) ≤ length xs
select_le p [] = ground arith
select_le p (x ∷ xs) = ground (arith, select_le p xs)

scored_le : (a b c n : ℕ) → a ≤ b → b ≡ c → c ≤ n → a ≤ n
scored_le a b c n h e k = omega arith

has_chunks :
    (asked : Bool) (cs : List ContextChunk) → (not asked || is_empty cs) ≡ false → 0 < length cs
has_chunks true [] h = ground arith
has_chunks true (c ∷ cs) h = omega arith
has_chunks false cs h = ground arith

module _ {F : Type 0} ⦃f : Float F⦄ where
  count_relevant_le : (cs : List (ChunkScore F)) → count_relevant cs ≤ length cs
  unfolding count_relevant
  count_relevant_le [] = ground arith
  count_relevant_le (c ∷ cs) = ground (arith, count_relevant_le cs)

module _ {F E : Type 0} ⦃f : Float F⦄ (m : Embedder F E) where
  -- a score for each chunk that has text
  abbrev IsScored : List ContextChunk → Result (List (ChunkScore F)) → Type 0
  IsScored cs (ok ss) = length ss ≡ length (select (λ c. is_text c.text) cs)
  IsScored cs (raised e) = Unit

  score_chunks-IsScored : (q : E) (cs : List ContextChunk) → IsScored cs (score_chunks m q cs)
  unfolding score_chunks
  score_chunks-IsScored q [] = refl
  score_chunks-IsScored q (c ∷ cs) =
      go (is_text c.text) (chunk_score m q c.text) (score_chunks m q cs)
        (select (λ c. is_text c.text) cs) (score_chunks-IsScored q cs)
    where
      go :
          (b : Bool) (s : Result (ChunkScore F)) (r : Result (List (ChunkScore F)))
          (l : List ContextChunk)
          → elim r as (λ _. Type 0) [ ok ss ↦ length ss ≡ length l | raised e ↦ Unit ]
          → elim (if not b then r else s >>= λ x. r >>= λ xs. ok (x ∷ xs)) as (λ _. Type 0) [
            | ok ss ↦ length ss ≡ length (if b then c ∷ l else l)
            | raised e ↦ Unit
          ]
      go false s r l h = h
      go true (raised e) r l h = tt
      go true (ok x) (raised e) l h = tt
      go true (ok x) (ok ss) l h = ground (arith, h)

module _ {F E : Type 0} ⦃f : Float F⦄ (laws : IsFraction F) (str : Exception → String) where
  precision_of-InRange :
      (cs : List ContextChunk) (m : Embedder F E) (r : Result (List (ChunkScore F)))
      → 0 < length cs
      → IsScored m cs r
      → Returned HasScore (r >>= λ chunks. ok (precision_of cs chunks))
  unfolding precision_of make_result Returned
  precision_of-InRange cs m (raised e) z h = tt
  precision_of-InRange cs m (ok ss) z h =
      fraction-InRange laws _ _ z
        (scored_le _ _ _ _ (count_relevant_le ss) h (select_le (λ c. is_text c.text) cs))

  -- Whatever the embeddings, and whether or not the model raises, the score of the context precision
  -- evaluator lies between 0 and 1.
  pub evaluate_precision-InRange :
      (get_model : Result (Embedder F E)) (sample : Sample F)
      → InRange (evaluate_precision str get_model sample).score
  unfolding evaluate_precision make_result
  evaluate_precision-InRange get_model sample =
      Returned-unless (HasScore {F = F}) _ _ _ (zero-InRange laws) λ asked.
        Returned-caught (HasScore {F = F}) _ _ str _ (error_result-HasScore laws _ _) (
          Returned-bind (HasScore {F = F}) get_model _ λ m.
            Returned-bind (HasScore {F = F}) (m.encode sample.question) _ λ q.
              precision_of-InRange sample.context m (score_chunks m q sample.context)
                (has_chunks (is_text sample.question) sample.context asked)
                (score_chunks-IsScored m q sample.context))
