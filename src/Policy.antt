-- ===== src/Policy.antt =====
-- src/odoo_mcp/policy: the fail-closed boundary around every write.
pub mod WriteSafety
