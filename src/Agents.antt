-- ===== src/Agents.antt =====
-- crates/tiny-mite-agents: the classifier of intents, the planner, the validator of plans, the
-- verification and repair of their steps, the registry of agents, and the parser of tool calls.
pub mod Intent
pub mod Complexity
pub mod Analysis
pub mod Planner
pub mod Validator
pub mod Verifier
pub mod Reflection
pub mod Repair
pub mod Registry
pub mod ToolParser
