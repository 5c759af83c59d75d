-- ===== src/Models.antt =====
-- app/db/models.py and app/core/enums.py: the rows of each table, and the input data that they hold
-- (app/api/schemas/evaluations.py). A UUID is a number, and a time is a number of microseconds since
-- the epoch. `F` is the type of floats and `D` that of other JSON values.
use llm_evaluation_pipeline.Prelude.{ℕ, String, Bool, Option, List}
use llm_evaluation_pipeline.Dict.{Dict}
use llm_evaluation_pipeline.Metric.{Hallucination}
use llm_evaluation_pipeline.Gate.{Threshold}

pub data JobStatus : Type 0 where
  queued running completed failed cancelled : JobStatus

pub record ContextChunk : Type 0 where
  pub id : String
  pub text : String

pub record Citation : Type 0 where
  pub source_id : String
  pub text : String

pub record ConversationInput (F : Type 0) : Type 0 where
  pub model_response : String
  pub question : String
  pub input_tokens : ℕ
  pub output_tokens : ℕ
  pub latency_ms : Option F
  pub reference_answer : String
  pub citations : List Citation

-- an item of a batch
pub record BatchEvaluationItem (F : Type 0) : Type 0 where
  pub conversation : ConversationInput F
  pub context : List ContextChunk

pub record Project : Type 0 where
  pub id : ℕ
  pub created_at : ℕ
  pub name : String
  pub description : String

pub record ApiKey : Type 0 where
  pub id : ℕ
  pub created_at : ℕ
  pub project_id : ℕ
  pub name : String
  pub key_hash : String
  pub key_prefix : String
  pub enabled : Bool
  pub last_used_at : Option ℕ
  pub expires_at : Option ℕ

pub record EvaluationRun (F D : Type 0) : Type 0 where
  pub id : ℕ
  pub created_at : ℕ
  pub project_id : Option ℕ
  pub status : JobStatus
  pub is_baseline : Bool
  pub profile : Option String
  pub composite_score : Option F
  pub conversation : ConversationInput F
  pub context : List ContextChunk
  pub relevance : Option F
  pub hallucination : Option (Hallucination F D)
  pub latency_ms : Option F
  pub estimated_cost : Option F

pub record MetricResultRecord (F D : Type 0) : Type 0 where
  pub id : ℕ
  pub created_at : ℕ
  pub run_id : ℕ
  pub metric : String
  pub score : F
  pub passed : Option Bool
  pub evaluator_version : String
  pub details : Option D
  pub error : Option String

-- an entry of `batch_results["results"]`
pub data BatchResult : Type 0 where
  item_completed : (run_id : ℕ) → BatchResult
  item_failed : (index : ℕ) (error : String) → BatchResult

pub record EvaluationJob (F : Type 0) : Type 0 where
  pub id : ℕ
  pub created_at : ℕ
  pub started_at : Option ℕ
  pub completed_at : Option ℕ
  pub project_id : Option ℕ
  pub status : JobStatus
  pub total_items : ℕ
  pub completed_items : ℕ
  pub failed_items : ℕ
  pub error_message : Option String
  pub items : List (BatchEvaluationItem F)
  pub evaluation_run_id : Option ℕ
  pub quality_gate_id : Option ℕ
  pub batch_results : Option (List BatchResult)

pub record QualityGate (F : Type 0) : Type 0 where
  pub id : ℕ
  pub created_at : ℕ
  pub project_id : Option ℕ
  pub name : String
  pub thresholds : Dict (Threshold F)
  pub enabled : Bool

pub record EvaluationBaseline : Type 0 where
  pub id : ℕ
  pub created_at : ℕ
  pub project_id : Option ℕ
  pub name : String
  pub description : String
  pub run_id : ℕ

-- the tables, each the list of its rows in the order of insertion
pub record Database (F D : Type 0) : Type 0 where
  pub projects : List Project
  pub api_keys : List ApiKey
  pub evaluation_runs : List (EvaluationRun F D)
  pub metric_results : List (MetricResultRecord F D)
  pub evaluation_jobs : List (EvaluationJob F)
  pub quality_gates : List (QualityGate F)
  pub evaluation_baselines : List EvaluationBaseline
