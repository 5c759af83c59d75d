-- ===== src/Service/Tests.antt =====
-- Witnesses of the theorems on app/services/evaluation_service.py and app/api/routes/evaluations.py.
use llm_evaluation_pipeline.Prelude.{◌+◌, some, true, false, false, none, [], length}
use llm_evaluation_pipeline.Number.Fixed.{Fixed, fixed_float}
use llm_evaluation_pipeline.Models.{Database}
use llm_evaluation_pipeline.App.{Backend, World, in_session}
use llm_evaluation_pipeline.Redis.Memory.{Server, Text, memory, memory_json}
use llm_evaluation_pipeline.Evaluators.{Details}
use llm_evaluation_pipeline.Profiles.Examples.{tools, settings, asked}
use llm_evaluation_pipeline.Service.{Reads, Evaluated, evaluate_slot, create_evaluation}
use llm_evaluation_pipeline.Service.Created.{IsCreated, create_evaluation-IsCreated}

abbrev backend : Backend Fixed (Details Fixed) Server Text
backend = record {
  redis = memory;
  json = memory_json;
  accepts = λ stored view. true;
  uuid4 = λ db. 100 + length db.evaluation_runs + length db.metric_results;
  str = λ e. "error";
}

abbrev empty : Database Fixed (Details Fixed)
empty = record {
  projects = [];
  api_keys = [];
  evaluation_runs = [];
  metric_results = [];
  evaluation_jobs = [];
  quality_gates = [];
  evaluation_baselines = [];
}

abbrev world : World Fixed (Details Fixed) Server
world = record {
  view = empty;
  stored = empty;
  broken = false;
  redis = record { up = true; now = 0; entries = λ k. none; jobs = []; tasks = [] };
  clock = 17;
}

-- the query of the results is not answered
abbrev reads : Reads Fixed Server
reads = record { refreshes = λ w. true; lists = λ w. false; builds = λ w. true }

create_evaluation-IsCreated_example :
    IsCreated backend reads 1 "rag" asked.conversation asked.context true
      (evaluate_slot tools [] settings asked.conversation asked.context "rag" none)
      world
      (in_session
        (create_evaluation backend reads true
          (evaluate_slot tools [] settings asked.conversation asked.context "rag" none)
          1
          "rag"
          asked.conversation
          asked.context)
        world)
create_evaluation-IsCreated_example =
    create_evaluation-IsCreated backend reads 1 "rag" asked.conversation asked.context true
      (evaluate_slot tools [] settings asked.conversation asked.context "rag" none) world

-- a database that answers everything
abbrev serving : Reads Fixed Server
serving = record { refreshes = λ w. true; lists = λ w. true; builds = λ w. true }

abbrev evaluated : Evaluated Fixed
evaluated = record {
  legacy_result = record {
    relevance = some (fixed_float.lit 9 1);
    hallucination = none;
    latency_ms = none;
    estimated_cost = none;
  };
  metric_results = [];
  composite_score = none;
}
