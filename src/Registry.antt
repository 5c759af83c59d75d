-- ===== src/Registry.antt =====
-- `run_evaluators` of evaluator/registry.py. `S` is the type of samples. The cached evaluators have no
-- state of their own but for the judge, whose settings are passed along.
pub mod Isolation
mod Tests
use llm_evaluation_pipeline.Prelude.{
  String, Bool, true, false, Option, none, some, List, [], ◌∷◌, ◌++◌, ◌&&◌, ◌||◌, not,
  if◌then◌else◌, ◌==◌, text_comparable,
}
use llm_evaluation_pipeline.Number.{Float, zero_float}
use llm_evaluation_pipeline.Metric.{MetricResult}
use llm_evaluation_pipeline.App.{Exception, Result, ok, raised}

-- the attributes of the judge that a request can set
pub record JudgeSettings (F : Type 0) : Type 0 where
  pub provider : String
  pub model : String
  pub temperature : F

pub record JudgeConfig (F : Type 0) : Type 0 where
  pub provider : Option String
  pub model : Option String
  pub temperature : Option F

pub record Evaluator (F D S : Type 0) : Type 0 where
  pub version : String
  pub evaluate : JudgeSettings F → S → Result (MetricResult F D)

abbrev pub or_else : {A : Type 0} → Option A → A → A
or_else none old = old
or_else (some x) old = x

unfoldable pub mentions : String → List String → Bool
mentions name [] = false
mentions name (n ∷ ns) = n == name || mentions name ns

module _ {F : Type 0} where
  unfoldable pub configure : Option (JudgeConfig F) → JudgeSettings F → JudgeSettings F
  configure none s = s
  configure (some c) s = record {
    provider = or_else c.provider s.provider;
    model = or_else c.model s.model;
    temperature = or_else c.temperature s.temperature;
  }

-- `_create_evaluator`, `details` of a result without any, and `str` of an exception
module _ {F D S : Type 0} ⦃f : Float F⦄ (create_evaluator : String → Option (Evaluator F D S))
    (no_details : D) (str : Exception → String) (not_found : String → String) where
  unfoldable pub error_result : String → String → String → MetricResult F D
  error_result name version error = record {
    metric = name;
    score = zero_float;
    evaluator_version = version;
    passed = some false;
    details = no_details;
    error = some error;
  }

  -- the `try` around an evaluator
  unfoldable pub settle : String → String → Result (MetricResult F D) → MetricResult F D
  settle name version (ok r) = r
  settle name version (raised e) = error_result name version (str e)

  unfoldable pub run_found :
      JudgeSettings F → S → String → Option (Evaluator F D S) → MetricResult F D
  run_found s sample name none = error_result name "0.0.0" (not_found name)
  run_found s sample name (some e) = settle name e.version (e.evaluate s sample)

  unfoldable pub run_names : JudgeSettings F → S → List String → List (MetricResult F D)
  run_names s sample [] = []
  run_names s sample (name ∷ names) =
      run_found s sample name (create_evaluator name) ∷ run_names s sample names

  unfoldable pub run_judge :
      JudgeSettings F
      → S
      → Option (JudgeConfig F)
      → Option (Evaluator F D S)
      → List (MetricResult F D) × JudgeSettings F
  run_judge s sample config none = ([], s)
  run_judge s sample config (some judge) =
      let s' = configure config s in
      (settle "llm_judge" judge.version (judge.evaluate s' sample) ∷ [], s')

  -- the results, and the settings that the judge is left with
  unfoldable pub run_evaluators :
      JudgeSettings F
      → List String
      → S
      → Bool
      → Option (JudgeConfig F)
      → List (MetricResult F D) × JudgeSettings F
  run_evaluators s names sample use_judge config =
      let results = run_names s sample names in
      if use_judge && not (mentions "llm_judge" names)
      then (let (judged, s') = run_judge s sample config (create_evaluator "llm_judge") in
          (results ++ judged, s'))
      else (results, s)
