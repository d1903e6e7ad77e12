-- ===== src/App.antt =====
-- src/odoo_mcp/app: what guards the access to the shared service.
pub mod Tokens
