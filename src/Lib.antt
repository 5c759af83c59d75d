-- ===== src/Lib.antt =====
-- The LLM evaluation platform: an HTTP API that evaluates conversations, an arq worker that works off
-- batches of them, and the rules by which a run passes a quality gate or counts as a regression.
--
-- The parts, and the files that model them:
--   * Models: the tables of app/db/models.py, one record for each, with JobStatus of
--     app/core/enums.py and the inputs of app/api/schemas/evaluations.py.
--   * Metric, Gate: METRIC_DIRECTION, DEFAULT_THRESHOLDS, `evaluate_gate` and `_extract_metric_value`
--     of app/services/quality_gate_service.py.
--   * Baseline: `detect_regressions` and `_get_legacy_comparisons` of app/services/baseline_service.py.
--   * Composite: `compute_composite` and `validate_weights` of evaluator/composite.py.
--   * App: what a handler or a task runs in. An action takes a `World` (the session's view of the
--     database, what is committed, the Redis server, the clock) to a result or an exception, and the
--     world it leaves. `commit`, `rollback`, `query`, `except` are those of the session and of Python.
--     App/Hoare has the postconditions of actions, App/Calls what they compute to where calls are
--     answered, App/Keeps the actions that commit nothing, App/Rows the rows of a table.
--   * Redis: the calls of app/services/redis_queue.py and app/api/deps.py on the server, as an
--     interface with laws; Redis/Memory is an in-memory server that has them.
--   * Jobs: the job state of app/services/redis_queue.py and app/services/job_service.py.
--   * Worker: `process_evaluation_job` of app/worker.py.
--   * Settings, RateLimit, Auth: app/core/config.py, app/api/deps.py, app/core/security.py and
--     app/api/routes/auth.py.
--   * Store: the queries and inserts of app/services/evaluation_service.py,
--     app/services/baseline_service.py and app/services/quality_gate_service.py.
--   * Text: the methods of `str` that evaluator/ calls.
--   * Evaluators: evaluator/base.py; Evaluators/Claims: evaluator/faithfulness.py,
--     evaluator/context_recall.py and evaluator/hallucination.py; Evaluators/Similarity:
--     evaluator/relevance.py, evaluator/context_precision.py and evaluator/answer_relevancy.py;
--     Evaluators/Citations: evaluator/citation_correctness.py; Evaluators/Usage: evaluator/cost.py and
--     evaluator/latency.py. Evaluators/Returned has the rules for what an evaluator returns.
--   * Pipeline: evaluator/pipeline.py. Judge: evaluator/judge.py.
--   * Registry, Profiles: `run_evaluators`, `_create_evaluator` and `evaluate_with_profile` of
--     evaluator/registry.py, and evaluator/profiles.py.
--   * Service: `run_evaluation` of app/services/evaluation_service.py and
--     app/api/routes/evaluations.py.
--   * Ci: scripts/evaluate_ci.py.
--   * Routes: app/api/routes/jobs.py, app/api/routes/runs.py, app/api/routes/baselines.py;
--     Routes/JobGate is `get_job_quality_gate`, and Routes/Cancelled takes the
--     cancellation of a job and the worker (Worker) together.
--
-- A request is authenticated (Auth), counted (RateLimit) and handled (Routes), and the handler calls
-- the services (Jobs, Store), which use the session and Redis (App, Redis). A submission inserts a
-- row and enqueues the job, and the worker takes the job up from there. An evaluation on the API's own
-- path takes a slot, runs the pipeline and the evaluators of its profile (Profiles, Evaluators, Judge),
-- weighs their scores (Composite) and stores the run with its results (Service).
--
-- Conventions. A UUID and a time are natural numbers, a time in microseconds. Floats are the class
-- `Float` of Number with the laws that the proofs use, as hypotheses; Number/Fixed is an instance.
-- A dictionary is an association list in the order of insertion. Tables are lists in the order of
-- insertion; how the database orders the rows of a page is a parameter for each query, and a list that
-- is not paged has rows of the same time in the order of insertion. A query of a session raises where
-- its transaction has failed; that it raises for another reason is modelled where it leaves something
-- behind, after the commit of an evaluation. No code deletes a row, so that an update finds its row.
-- An error that the Redis server answers is told apart from a lost connection in the rate limiter, whose
-- callers treat the two differently. The order in which Python goes over a set is a parameter, and so
-- are the classifier, the embeddings, the clients of the judge, `json.loads`, SHA-256, the generator
-- of keys, the query of averages over the runs of a job, `str` of an exception, and what other
-- processes do to the shared stores between two items of a job. No loop needs fuel: each goes over a
-- list.
--
-- The worker takes the evaluation of one item as a parameter, and Pipeline is what it is at work.
-- The judge's loop goes over the numbers below max_retries, and its answers are numbered by attempt.
--
-- Not modelled: the semaphore of the evaluation service, of which `run_evaluation` takes what
-- `acquire` returned as an input; the loading of modules and the caches of models and evaluators,
-- which are taken to be free of effects but for the judge's settings; the handlers that answer a
-- constant, metrics, logs and traces, what scripts print, the migrations, the dashboard and the other
-- scripts.
pub mod Prelude
pub mod Dict
pub mod Number
pub mod Metric
pub mod Gate
pub mod Models
pub mod Composite
pub mod Baseline
pub mod Redis
pub mod App
pub mod Jobs
pub mod Worker
pub mod Settings
pub mod RateLimit
pub mod Auth
pub mod Store
pub mod Routes
pub mod Text
pub mod Evaluators
pub mod Pipeline
pub mod Judge
pub mod Profiles
pub mod Service
pub mod Ci
pub mod Registry
