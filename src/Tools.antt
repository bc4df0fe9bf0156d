-- ===== src/Tools.antt =====
-- crates/tiny-mite-tools: tool definitions, the tool registry and user approvals.
pub mod Definition
pub mod Registry
pub mod Approval
