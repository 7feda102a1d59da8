-- ===== src/Lib.antt =====
-- ActionCloud: a governed experience memory for fleets of agents. Agents record what they did; before a
-- task an agent gets the memories that it may see and that proved useful; reports of reuse move a
-- memory up and down a ladder of trust.
--
-- The parts, from the data upwards, and the code that each one models:
--   Schema      src/actioncloud/schema.py: roles, tiers, the records of an experience.
--               Schema/Visibility has VISIBILITY_SQL of db.py too, Schema/Tags the tag validator.
--   Judge       judge.py: MemoryJudge. Judge/Ladder states the README's ladder as a relation,
--               Judge/Confidence is about posterior_confidence.
--   Embeddings  embeddings.py: experience_embedding_text; Embeddings/Hashing has the hashing provider.
--   Store       the tables of sql/ and the transactions of db.py: Store for the inserts and reads,
--               Store/Reuse for apply_reuse, Store/Search for the three queries, Store/Ledger and
--               Store/Consistency for what the tables have to do with one another, Store/Legacy for
--               the single-statement updates.
--   Extractor   extractor.py: the heuristic extraction and the fallback to it.
--   Render, Builder   builder.py and policy.py: a memory as text, and the context of a prompt.
--   Pipeline    pipeline.py: process_experience.
--   Service     service.py: MemoryService, with the message format of queue.py. Service/Prompt is about
--               prepare_context as a whole.
--   Worker      worker.py: one message, one batch, the loop.
--   Auth        auth.py: the registry of agents and their keys.
--   Api         api.py: identity and the routes for experiences; Api/Retrieval has the searches, Api/Admin
--               the agents and the reports.
--   Mcp         mcp_server.py: tool arguments, the bound identity, the dispatch of tools and messages.
--   Metrics     metrics.py: compute_metrics; Metrics/Stored has compare and MetricCalculator.
--   Client      client.py: the calls that an agent makes, as an interface, and InProcessClient.
--               Client/Http has ActionCloudClient over the routes of Api.
--   Llm         llm.py: prices, the mock model, the choice of a model.
--   Agents      agents/base.py: the run of one task. Agents/Roles has agents/roles.py, Agents/Steps takes
--               a finished task apart, Agents/Governed, Agents/Isolation and Agents/Totality are about
--               what a task does to the memory, what it sees of it, and that it ends, with the calls
--               of the client in Agents/Calls.
--   Benchmark   benchmark/verifier.py in Benchmark/Verifier, benchmark/harness.py in Benchmark/Harness:
--               the workload, the turns of an arm's loop and its figures. Benchmark/Experiment has the
--               file's run_experiment, Benchmark/Simulator has benchmark/simulator.py, and Text the
--               operations on texts that they need.
--   Governance  every history of stored experiences, injections and reports, by any agents, in the
--               order of their transactions; a task of an agent and the run of an arm
--               are such histories. Governance/Earned ties tiers to counts, Governance/Fleet
--               and Governance/Quarantine say what no history can do. Governance/Program puts the
--               routes, the tools and the worker together: a list of events acts on one store and
--               one queue.
--   Examples    the theorems at concrete inputs, and tests.
-- Prelude and Table are the shared helpers: lists, stable sort, rows with a key. Floats is the
-- interface of Python's floats.
--
-- How they interact: a route or a worker calls the service or the pipeline, these call the store, the
-- judge and the builder, and every call is one function here that takes the store and gives the next
-- one. A transaction of the database is one step; the row lock of apply_reuse is the reason why
-- interleavings are sequences of steps. An exception is a value: of Option, Result, Handled, Http or
-- Tool. Two calls read in one transaction and write in a later one, process_experience (the author's
-- evidence) and prepare_context (the search); each is one step here. What lies outside may raise:
-- for the worker that is `fault`, for a synchronous write `Enrichers.answers`, and either leaves the
-- store as it was. The embedding of a query and the reads of the database are taken to answer.
--
-- A workflow that a model extracted is stored unchecked but for its steps, so its parts are any JSON
-- as Python iterates over it (Schema.Part), and the rendering may raise. The type and the payload of a
-- message are any JSON too, as far as the worker tells values apart (Service.Body, Service.Payload).
--
-- Numbers: counts are natural numbers; confidence and prior are counted in ten-thousandths, as the code
-- rounds them, and `Rounding` is what round(x, 4) promises of a fraction. Scores, thresholds and
-- similarities are an abstract type of floats with a total order. A UUID is a number.
--
-- Parameters, since their code is elsewhere: PostgreSQL's text rank, pgvector's distance and index
-- (Engine), the embedding providers and the extractor of the pipeline (Enrichers), SHA-256 (`hash`),
-- difflib (`ratio`), strip and lower (`fold`), the parsing of the Authorization header (`bearer`), of
-- a UUID and of a numeral (`uuid_of`, `int_of_text`), the regular expression and the lines of the
-- extractor (`step_of`, `lines_of`, `cut`), what a model answers (`complete`), the seeded shuffle and
-- the seeded numbers of the benchmark (`shuffle`, `draws`), str.lower (`lower`), BLAKE2b (`digest`),
-- the arithmetic of vectors (`Arithmetic`), the collation of an array (`ordered`), the regular
-- expressions of the simulator (`header_of`), and what SQS delivers.
--
-- Fuel: `decimal`, which writes a number in digits, is the only function on fuel. It gets one more than
-- the number, and more fuel gives the same text (Render).
--
-- Not modelled: the HTTP and MCP transports, connection pools, the environment, logging, the clients
-- of hosted models, the means and deviations that sum up the runs of an experiment, the command lines,
-- and the scripts.
pub mod Prelude
pub mod Table
pub mod Schema
pub mod Judge
pub mod Floats
pub mod Embeddings
pub mod Store
pub mod Render
pub mod Builder
pub mod Pipeline
pub mod Service
pub mod Governance
pub mod Auth
pub mod Api
pub mod Worker
pub mod Mcp
pub mod Text
pub mod Benchmark
pub mod Client
pub mod Agents
pub mod Llm
pub mod Metrics
pub mod Extractor
pub mod Examples
