-- ===== src/Lib.antt =====
-- The verification library of SmartScreenAgent's durable core: the Python services under
-- backend/app that take a resume in, drive its job to an end whatever fails meanwhile, pull resumes
-- from an outside source, score them with rules and models, queue second opinions on the scores,
-- account for the models' use, publish rules and release reports on the quality of it all.
--
-- How the parts work together. An upload route or a sync run calls `ingest_upload`, which stores
-- the file and asks the job service for a job; the job's id goes to a Celery worker, which claims
-- the job, parses, extracts and scores, and records a failure as a state of the job; a sweeper
-- reclaims the jobs of dead workers and sends them again. Items that a sync run could not ingest
-- are replayed later. The scoring pipeline filters by hard rules, rates by rule dimensions, asks
-- the judge, which calls a model through the gateway, and stores one score for a candidate, a job
-- description and a rule version. A score may queue a cross-check, whose worker claims, completes
-- or fails it under a lease token. Every call of a model is a row of the usage ledger with its
-- cost, which budgets are reconciled with. A rule version is drafted, evaluated on the golden set
-- and published, and a quality release freezes the metrics of the scores on that set.
--
--   Ingestion/States     backend/app/services/ingestion/states.py
--   Ingestion/Jobs       backend/app/services/ingestion/jobs.py, backend/app/models/ingestion_job.py
--   Ingestion/Sweeper    backend/app/services/ingestion/sweeper.py
--   Ingestion/Intake     backend/app/services/ingestion/intake.py
--   Ingestion/Worker     backend/app/tasks/ingest.py
--   Sync/Ledger          backend/app/services/sync/ledger.py, backend/app/models/sync.py
--   Sync/Runner          backend/app/services/sync/runner.py
--   Sync/JdMetadata      backend/app/services/sync/runner.py (sync_jd_metadata)
--   Sync/Replay          backend/app/services/sync/replay.py
--   CrossCheck/Sampling  backend/app/services/cross_check/sampling.py and triggers.py
--   CrossCheck/State     backend/app/services/cross_check/state.py
--   CrossCheck/Worker    backend/app/services/cross_check/worker.py
--   Llm/Pricing          backend/app/services/llm/pricing.py
--   Llm/Usage            backend/app/services/llm/usage.py, backend/app/models/llm_usage.py
--   Llm/Gateway          backend/app/services/llm/gateway.py; its child Response reads an answer
--   Scoring/Judge        backend/app/scoring/llm_judge.py
--   Scoring/HardFilter   backend/app/scoring/hard_filter.py
--   Scoring/RuleEngine   backend/app/scoring/rule_engine.py and methods/ (Ranking: their sort)
--   Scoring/Pipeline     backend/app/scoring/pipeline.py: its tables, and its child Run `run`
--   Scoring/Grade        backend/app/scoring/pipeline.py (_grade_from)
--   Rules/WhatIf         backend/app/services/rule_publication.py, the what-if grades and metrics
--   Rules/Publication    backend/app/services/rule_publication.py, drafts and their publication
--   Quality/Metrics      backend/app/services/quality/metrics.py, with its child Confidence
--   Quality/Releases     backend/app/services/quality/releases.py, with its child Creation
--   Operations/Budgets   backend/app/services/operations/budgets.py
--   Prelude              lists, options, Boolean tests and results that the parts share
--
-- A definition has the name of the function or class it models; a name after it, such as
-- `after_insert`, is the rest of that function from one of its branch points on. The other
-- modules hold proofs, named for what they prove: under Ingestion Invariant, Claim, Recovery,
-- Dedupe, History, Redelivery and Worker/Outcome; under Sync Ledger/Laws, Runner/Report,
-- JdMetadata/Governed and Replay/Attempts and Report; under CrossCheck Sampling/Decision,
-- State/Fence, Soundness, Projection and History, and Worker/Outcome; under Llm Pricing/Bounds,
-- Usage/History, Finalize and Settled, and Gateway/Reading, Accounts and Calls; under Scoring
-- Judge/Validity and Secondary, RuleEngine/Best and Pipeline/Persisted; under Rules
-- Publication/Governed, Drafts, Ready, Published and History; under Quality Metrics/Accounts and
-- Releases/Gathered, Written and Recorded; under Operations Budgets/Periods, Alerts and Drained,
-- with Budgets/Spend, which says once more, from the ledger and the thresholds, what a period costs
-- and which alerts are due. A History runs the transactions of a part in any order. Tests and
-- Samples hold concrete inputs.
--
-- State. A table is a list of rows in the order of their ids with the next id; a SELECT is
-- `find_first` or `select`, an UPDATE is `update_where`, and INSERT ... ON CONFLICT tests the
-- columns of its constraint. An operation is one transaction, a function from the table to a
-- result and a table; an exception is a value. Where the code runs several statements while other
-- transactions commit, the model takes what they do as a function (`Interference`, `meanwhile`),
-- and rows that others lock as a predicate; the sync of job descriptions keeps the rows that its
-- transaction sees apart from those that stay if it is rolled back. An instant is a number of
-- microseconds; a Decimal, a score or a weight is a number of a fixed quantum; a ratio of counts
-- is its two numbers. So a score is not negative, a stored total or difference is not rounded to
-- the scale of its column, and a ratio is compared exactly where the code compares floats. A
-- worker of the ingestion keeps the copy of the job it claimed and moves that copy, as `run_job`
-- does, whatever the row has become since. Python integers do not wrap and neither do these.
--
-- Parameters. What MinerU, the models, the object store, the malware scanner, the source's
-- adapter, the broker and the database answer is a record of outcomes (`Attempt`, `UploadCalls`,
-- `ItemCalls`, `RunCalls`, `JdCalls`, `Encounter`, `Meets`), so a theorem holds however they behave,
-- unless it says otherwise; what regular expressions, dates, JSON, hashes and the divisions of
-- decimals give is a record of functions (`RuleText`, `Texts`, `Reader`, `Calendar`, `Given`,
-- `Decimals`).
--
-- Loops. Most are recursions on a list. The others count down what the code itself bounds: the
-- tries of `finalize`, the three attempts of `create_release`, and the number of periods that a
-- reconciliation may handle; where they run out, the model does what the code does then.
--
-- Not modelled: log lines, temporary files, HTTP routes but that of publication, request schemas,
-- the MCP server, configuration, tokens and encryption, the clients of MinerU, MinIO and DingTalk,
-- the checks of an uploaded artifact, the reports of operations and the read models, which are SQL
-- aggregates and SELECTs, the import and export of the golden set, feedback, and the creation of a
-- candidate from a parsed resume.
pub mod Prelude
pub mod Ingestion
pub mod Sync
pub mod CrossCheck
pub mod Llm
pub mod Scoring
pub mod Rules
pub mod Quality
pub mod Operations
