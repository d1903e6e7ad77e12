-- ===== src/Workflows.antt =====
-- src/odoo_mcp/workflows: the reports and proposals that read Odoo through the adapter.
pub mod Values
pub mod Adapter
pub mod Paging
pub mod Cursors
pub mod Sorting
pub mod Crashes
pub mod Cashbook
pub mod Reconcile
