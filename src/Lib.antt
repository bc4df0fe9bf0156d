-- ===== src/Lib.antt =====
-- Verification library of tiny-mite, a local agent runtime in Rust (crates/).
--
-- The program's core is a task registry in SQLite, a cancellation manager over it, a scheduler
-- that rations the machine's resources, and a security gateway in front of the tools. The registry
-- and the manager publish events on a bus; the manager asks the registry to record a cancellation,
-- triggers the token of the task in memory, and then moves the task to CANCELLED by the registry's
-- optimistic transition. The gateway decides each tool call by the caller's capability token and
-- records its decision in a bounded audit log.
--
-- Files and the code they model:
--   Prelude/            helpers: tests on numbers, lists, maps, texts, results
--   Crates              uuid, chrono and serde_json, as one record of types, operations and laws
--   Domain/             crates/tiny-mite-domain/src: identifiers (id.rs), statuses, priorities and
--                       budgets (values.rs), errors (error.rs)
--   Events/             crates/tiny-mite-events/src: envelope.rs, with the bus as publishers see it,
--                       bus.rs, and in Events/Store the event store store.rs: Row (row_to_envelope,
--                       the INSERT), Statement (build_query_sql and the statement of replay),
--                       Tables (SQLite as an interface), Operations (the trait's methods)
--   Tools/              crates/tiny-mite-tools/src: schema.rs, registry.rs, approval.rs
--   Security/           crates/tiny-mite-security/src: capability.rs, policy.rs, gateway.rs,
--                       audit.rs, net_policy.rs, validation.rs, secrets.rs
--   Scheduler/Registry/ crates/tiny-mite-scheduler/src/task_registry.rs: Task (records), Lifecycle
--                       (validate_transition), Row (row_to_task, the INSERT), Table (the SQL
--                       statements as an interface), Operations and Marks (the trait's methods)
--   Scheduler/Cancellation, Scheduler/Manager
--                       crates/tiny-mite-scheduler/src/cancellation.rs
--   Scheduler/Resources, Scheduler/Queue
--                       crates/tiny-mite-scheduler/src/scheduler.rs
--   Core/Lifecycle      crates/tiny-mite-core/src/lifecycle.rs
--   Runtime/            crates/tiny-mite-runtime/src: cache.rs (Cache, Pressure), reliability.rs,
--                       compaction.rs, router.rs, and in Context the compiler of contexts of
--                       context.rs: Eviction (from the zones) and Compile (sort, budget, duplicates)
--   Agents/Intent, Agents/Complexity, Agents/Analysis
--                       crates/tiny-mite-agents/src: intent.rs, complexity.rs, analysis.rs: the
--                       classifier, from the text of a task to its analysis
--   Agents/Planner, Agents/Validator
--                       crates/tiny-mite-agents/src: planner.rs, from an analysis to a plan, and
--                       validator.rs: Cycles (the depth-first search), Orphans, Whole (validate)
--   Agents/Verifier, Agents/Reflection, Agents/Repair, Agents/Registry
--                       crates/tiny-mite-agents/src: the files of these names
--   Agents/ToolParser   crates/tiny-mite-agents/src/tool_parser.rs: the formats of tool calls, with
--                       Brackets (the walk to the matching bracket) and Fallbacks
--   Llama/Gguf          crates/tiny-mite-llama-cpp/src/gguf.rs: Bytes and Values (the readers),
--                       Tensors, Loops, Metadata and Split (what is put together), Inspect
--   Examples/           the interfaces at concrete types, and the theorems at concrete inputs
--
-- State is passed explicitly: an operation takes the state and returns its result with the state
-- after it. Clocks and fresh identifiers are arguments. An operation of the registry holds its lock
-- throughout, so it is one step; where the code lets the lock go between two steps (mark_completed,
-- the manager's request) a function stands for what others do in between. `u32` counters and the
-- sums of the compaction wrap. A clock that is read at each comparison of a sort is a function of the
-- comparison, and the order in which a hash map is visited is an argument.
-- A panic is a missing result. The loops that are not structural take fuel. For `trim_prefix` of
-- Prelude/Texts and `tagged_calls` the length of the text is enough, since every round shortens the
-- text; for the eviction from a zone the number of its items, since every round takes one; for the
-- search for cycles one more than the number of the steps, since it goes deeper only on a step that
-- is not visited; for the search for orphans the pushes that the map allows. The reader of model
-- files takes the depth of the stack: one more than the bytes of the file is enough.
--
-- Parameters: SQLite (Scheduler/Registry/Table, Events/Store/Tables), DashMap (TokenMap), the bus
-- (Publisher), floating point (Floats, Singles, Doubles, Shares,
-- Decoding), the providers of models
-- (Providers), tokio's channels (Mpsc), serde_json for the parser (Serde), `str::to_lowercase`
-- (Lowercase), and the crates of Crates. I/O errors of SQLite other than a duplicate key are modelled
-- for the event store's writes only, those of files as a missing file and the end of a file. Not
-- modelled: the migrations; of the runtime crate the HTTP adapters, streaming and embeddings; of the
-- agent crate the loop that drives a model, its tools and memory;
-- configuration and the command line, retrieval, the foreign functions of llama.cpp, and the desktop
-- application.
pub mod Prelude
pub mod Crates
pub mod Examples
pub mod Core
pub mod Domain
pub mod Tools
pub mod Security
pub mod Events
pub mod Llama
pub mod Runtime
pub mod Scheduler
pub mod Agents
