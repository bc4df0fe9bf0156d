-- ===== src/Domain.antt =====
-- crates/tiny-mite-domain: identifiers, value objects and the error taxonomy.
pub mod Values
pub mod Errors
pub mod Budget
pub mod Ids
