-- ===== src/Storage.antt =====
-- src/odoo_mcp/storage: the records, the transaction boundary, and a module for each repository.
pub mod Models
pub mod Database
pub mod Platform
pub mod Event
pub mod Audit
pub mod Idempotency
pub mod Put
pub mod Proposals
pub mod Artifacts
pub mod ProposalJournal
pub mod ReportJournal
pub mod Execution
