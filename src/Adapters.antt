-- ===== src/Adapters.antt =====
-- src/odoo_mcp/adapters: what guards the connections to a customer's server.
pub mod Outbound
