-- ===== src/Workflows/Cursors/Safe.antt =====
-- Proofs that the cursors raise nothing but the errors of the code itself.
use odoo_mcp.Prelude.{ℕ, ℤ, String, ◌≢◌, Option, none, some, List, arith}
use odoo_mcp.Errors.{OdooMcpError}
use odoo_mcp.Workflows.Values.{crashed}
use odoo_mcp.Workflows.Cursors.{
  CursorText, checked_offset, split_offset, decoded_offset, split_once, cursor_offset, page_at,
}

checked_offset_safe :
    (t : CursorText) (invalid : OdooMcpError) (version : String) (o : Option ℤ)
    → checked_offset t invalid version o ≢ crashed
checked_offset_safe t invalid version none = λ h. cc h
checked_offset_safe t invalid version (some n) = λ h. ground arith

split_offset_safe :
    (t : CursorText) (invalid : OdooMcpError) (o : Option (String × String))
    → split_offset t invalid o ≢ crashed
split_offset_safe t invalid none = λ h. cc h
split_offset_safe t invalid (some (version, raw)) =
    checked_offset_safe t invalid version (t.int raw)

decoded_offset_safe :
    (t : CursorText) (invalid : OdooMcpError) (o : Option String)
    → decoded_offset t invalid o ≢ crashed
decoded_offset_safe t invalid none = λ h. cc h
decoded_offset_safe t invalid (some s) = split_offset_safe t invalid (split_once s)

pub cursor_offset_safe :
    (t : CursorText) (invalid : OdooMcpError) (o : Option String)
    → cursor_offset t invalid o ≢ crashed
unfolding cursor_offset
cursor_offset_safe t invalid none = λ h. cc h
cursor_offset_safe t invalid (some s) = decoded_offset_safe t invalid (t.decode s)

pub page_at_safe :
    {A : Type 0} (t : CursorText) (outside : OdooMcpError) (xs : List A) (limit offset : ℕ)
    → page_at t outside xs limit offset ≢ crashed
unfolding page_at
page_at_safe t outside xs limit offset = λ h. ground arith
