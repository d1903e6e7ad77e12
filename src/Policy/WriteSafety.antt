-- ===== src/Policy/WriteSafety.antt =====
-- src/odoo_mcp/policy/write_safety.py: `WriteSafetyCoordinator`, from its types to `run`.
pub mod Types
pub mod Gate
pub mod Response
pub mod Persistence
pub mod Stored
pub mod Event
pub mod Steps
pub mod Run
pub mod Keeps
pub mod Attempt
pub mod Shape
pub mod Honest
pub mod Once
pub mod Durable
pub mod Authority
