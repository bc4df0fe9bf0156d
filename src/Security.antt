-- ===== src/Security.antt =====
-- crates/tiny-mite-security: capability tokens, access policies, the audit log and the tool
-- gateway.
pub mod Capability
pub mod Policy
pub mod Audit
pub mod Gateway
pub mod Network
pub mod Validation
pub mod Secrets
