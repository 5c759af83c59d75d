-- ===== src/Judge.antt =====
-- evaluator/judge.py. The clients of the providers are parameters, one answer for each attempt, and so
-- is `json.loads`, of which the judge reads the three keys below.
pub mod Attempts
pub mod Parse
mod Tests
use llm_evaluation_pipeline.Prelude.{
  ℕ, zero, suc, String, Bool, true, false, Option, none, some, not, if◌then◌else◌, ◌==◌,
  text_comparable, number_comparable,
}
use llm_evaluation_pipeline.Number.{Float, zero_float}
use llm_evaluation_pipeline.Metric.{MetricResult}
use llm_evaluation_pipeline.App.{
  prefix, Exception, Result, ok, raised, json_error, value_error, attribute_error,
}
use llm_evaluation_pipeline.Registry.{JudgeSettings}
use llm_evaluation_pipeline.Text.{is_text, join, strip, before, after, from_char, up_to_last}
use llm_evaluation_pipeline.Evaluators.{
  Sample, Details, judge_details, judge_error, ◌>>=◌, make_result, error_result, texts,
}

-- `parsed.get("score", 0)`: a value that does not divide by a number raises
pub data Score (F : Type 0) : Type 0 where
  no_score : Score F
  number : F → Score F
  not_a_number : Exception → Score F

-- what `json.loads` returns; `reason` and `criteria` are kept as the text of their values
pub data Reply (F : Type 0) : Type 0 where
  null : Reply F
  object : (score : Score F) (reason criteria : Option String) → Reply F
  -- a list, a number, a text or a truth value: it has no `get`
  other : Reply F

-- the clients: attempt, API key, settings and prompt
pub record Providers (F : Type 0) : Type 0 where
  pub openai_api_key : String
  pub anthropic_api_key : String
  pub openai : ℕ → String → JudgeSettings F → String → Result (Option String)
  pub anthropic : ℕ → String → JudgeSettings F → String → Result String
  -- the time of a call by `time.perf_counter()`, in milliseconds
  pub elapsed : ℕ → F

abbrev pub content_or_empty : Option String → String
content_or_empty none = ""
content_or_empty (some s) = s

module _ {F : Type 0} (p : Providers F) where
  unfoldable pub call_openai : ℕ → JudgeSettings F → String → Result String
  call_openai attempt s prompt =
      if not (is_text p.openai_api_key)
      then raised value_error
      else p.openai attempt p.openai_api_key s prompt >>= λ content. ok (content_or_empty content)

  unfoldable pub call_anthropic : ℕ → JudgeSettings F → String → Result String
  call_anthropic attempt s prompt =
      if not (is_text p.anthropic_api_key)
      then raised value_error
      else p.anthropic attempt p.anthropic_api_key s prompt

  unfoldable pub call_llm : ℕ → JudgeSettings F → String → Result String
  call_llm attempt s prompt =
      if s.provider == "openai"
      then call_openai attempt s prompt
      else (if s.provider == "anthropic"
          then call_anthropic attempt s prompt
          else raised value_error)

abbrev pub text_or : String → Option String → String
text_or d none = d
text_or d (some s) = s

abbrev pub is_some : Option String → Bool
is_some none = false
is_some (some s) = true

-- `text[start:end]`, `rest` being `text[start:]`; empty where the last "}" stands before the first "{"
unfoldable pub cut : String → Option String → Option String
cut text none = none
cut text (some rest) =
    if is_some (up_to_last 125 text) then some (content_or_empty (up_to_last 125 rest)) else none

unfoldable pub braced : String → Option String
braced text = cut text (from_char 123 text)

-- the contents of a code block, from what follows the first "```json"
unfoldable pub block : String → String
block rest = strip (before "```" (before "```json" rest))

module _ {F : Type 0} where
  -- `except json.JSONDecodeError: pass`
  abbrev pub unless_decoded : Result (Reply F) → Result (Reply F) → Result (Reply F)
  unless_decoded (ok r) next = ok r
  unless_decoded (raised json_error) next = next
  unless_decoded (raised e) next = raised e

module _ {F : Type 0} (loads : String → Result (Reply F)) where
  unfoldable pub parse_block : Option String → Result (Reply F) → Result (Reply F)
  parse_block none next = next
  parse_block (some rest) next = unless_decoded (loads (block rest)) next

  unfoldable pub parse_braced : Option String → Result (Reply F)
  parse_braced none = ok null
  parse_braced (some t) = unless_decoded (loads t) (ok null)

  -- `_parse_response`; its None is `null`
  unfoldable pub parse_response : String → Result (Reply F)
  parse_response text =
      unless_decoded (loads text)
        (parse_block (after 7 "```json" text) (parse_braced (braced text)))

module _ {F : Type 0} ⦃f : Float F⦄ where
  -- `parsed.get("score", 0) / 5.0`
  unfoldable pub fifth : Score F → Result F
  fifth no_score = ok (f.div zero_float (f.lit 5 0))
  fifth (number x) = ok (f.div x (f.lit 5 0))
  fifth (not_a_number e) = raised e

  -- `parsed.get("score")`
  unfoldable pub raw_score : Score F → Option F
  raw_score no_score = none
  raw_score (number x) = some x
  raw_score (not_a_number e) = none

  -- the result for a reply, if it has one; `null` is no reply
  unfoldable pub judge_reply :
      JudgeSettings F → F → Reply F → Result (Option (MetricResult F (Details F)))
  judge_reply s latency null = ok none
  judge_reply s latency other = raised attribute_error
  judge_reply s latency (object score reason criteria) = fifth score >>= λ x. ok (
      some (
        make_result "llm_judge" "1.0.0" (f.round x 4) (f.le (f.lit 6 1) x) (
          judge_details (raw_score score) (text_or "\"\"" reason) (text_or "{}" criteria) s.provider
            s.model latency)))

  abbrev pub no_answer : MetricResult F (Details F)
  no_answer = make_result "llm_judge" "1.0.0" zero_float false (judge_error "no_answer")

  abbrev pub gave_up : MetricResult F (Details F)
  gave_up = error_result "llm_judge" "1.0.0" "Judge failed: max retries exceeded"

module _ {F : Type 0} ⦃f : Float F⦄ (p : Providers F) (loads : String → Result (Reply F)) where
  -- the body of `try`
  unfoldable pub attempt_judge :
      JudgeSettings F → String → ℕ → Result (Option (MetricResult F (Details F)))
  attempt_judge s prompt attempt = call_llm p attempt s prompt >>= λ text.
      parse_response loads text >>= λ reply. judge_reply s (f.round (p.elapsed attempt) 4) reply

-- the text of a failure after so many attempts
module _ {F : Type 0} ⦃f : Float F⦄ (failed_after : ℕ → Exception → String) where
  -- the rest of the loop after an attempt, of which `rest` is what the later ones come to
  unfoldable pub after_attempt :
      ℕ
      → ℕ
      → Result (Option (MetricResult F (Details F)))
      → MetricResult F (Details F)
      → MetricResult F (Details F)
  after_attempt max_retries attempt (ok (some r)) rest = r
  after_attempt max_retries attempt (ok none) rest = rest
  after_attempt max_retries attempt (raised e) rest =
      if suc attempt == max_retries
      then error_result "llm_judge" "1.0.0" (failed_after max_retries e)
      else rest

  -- `for attempt in range(max_retries)`, with `n` attempts left and `run` the body of the `try`
  unfoldable pub attempts :
      (ℕ → Result (Option (MetricResult F (Details F)))) → ℕ → ℕ → ℕ → MetricResult F (Details F)
  attempts run max_retries attempt zero = gave_up
  attempts run max_retries attempt (suc n) =
      after_attempt max_retries attempt (run attempt) (attempts run max_retries (suc attempt) n)

-- `rubric.format(question=…, answer=…, context=…)`
module _ {F : Type 0} (format : String → String → String → String) where
  unfoldable pub prompt_of : Sample F → String
  prompt_of sample =
      format sample.question sample.answer (prefix 2000 (join " " (texts sample.context)))

module _ {F : Type 0} ⦃f : Float F⦄ (p : Providers F) (loads : String → Result (Reply F))
    (format : String → String → String → String) (failed_after : ℕ → Exception → String) where
  -- `LLMJudgeEvaluator.evaluate`
  unfoldable pub evaluate_judge : ℕ → JudgeSettings F → Sample F → MetricResult F (Details F)
  evaluate_judge max_retries s sample =
      if not (is_text sample.answer)
      then no_answer
      else attempts failed_after (attempt_judge p loads s (prompt_of format sample)) max_retries 0
          max_retries
