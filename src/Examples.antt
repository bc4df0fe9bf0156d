-- ===== src/Examples.antt =====
-- The crates at concrete types, and the theorems at concrete inputs.
mod Crates
mod Rows
mod Tables
mod Tasks
mod Registry
mod Tokens
mod Managers
mod Access
mod Queues
mod Lifecycles
mod Buses
mod Caches
mod Databases
mod Events
mod Stores
mod Parsers
mod Outputs
mod Plans
mod Repairs
mod Models
mod Contexts
mod Routers
