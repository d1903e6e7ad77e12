-- ===== src/Workflows/Cursors.antt =====
-- `_cursor_offset` and `_next_cursor` of src/odoo_mcp/workflows/accounting/cashbook.py and of
-- reconcile_bank.py there, and the slices that they select.
pub mod Walks
pub mod Safe
use Prim.Native.Char.{Char, code}
use odoo_mcp.Prelude.{
  ℕ, suc, zero, ◌+◌, ℤ, pos, negsuc, leb_ℤ, pos_part, String, Bool, true, false, ◌||◌, not, Option,
  none, some, List, [], ◌∷◌, length, take, drop, ltb, str_eq, ◌==◌, if◌then◌else◌,
}
use odoo_mcp.Errors.{OdooMcpError, invalid_input}
use odoo_mcp.Workflows.Values.{Reply, answered, refused}

-- What the cursors take from Python's library: `base64.urlsafe_b64encode(...).decode().rstrip("=")`,
-- the padding, `b64decode(..., validate=True)` and `decode()` that undo it (`none` where they raise),
-- `str` of an int, and `int` of a text (`none` where it raises).
pub record CursorText : Type 0 where
  pub encode : String → String
  pub decode : String → Option String
  pub str : ℕ → String
  pub int : String → Option ℤ

abbrev with_first : Char → Option (String × String) → Option (String × String)
with_first c none = none
with_first c (some (a, b)) = some (String.◌∷◌ c a, b)

-- `text.split(":", 1)` unpacked into two names: `none` where there is no colon.
unfoldable pub split_once : String → Option (String × String)
split_once String.[] = none
split_once (String.◌∷◌ c s) =
    let rest = split_once s in if code c == 58 then some ("", s) else with_first c rest

module _ (t : CursorText) (invalid : OdooMcpError) where
  -- The checks on the two parts of a decoded cursor.
  abbrev pub checked_offset : String → Option ℤ → Reply ℕ
  checked_offset version none = refused invalid
  checked_offset version (some offset) =
      if not (str_eq version "v1") || leb_ℤ offset (pos 0)
      then refused invalid
      else answered (pos_part offset)

  abbrev pub split_offset : Option (String × String) → Reply ℕ
  split_offset none = refused invalid
  split_offset (some (version, raw)) = checked_offset version (t.int raw)

  abbrev pub decoded_offset : Option String → Reply ℕ
  decoded_offset none = refused invalid
  decoded_offset (some text) = split_offset (split_once text)

  -- `_cursor_offset`
  unfoldable pub cursor_offset : Option String → Reply ℕ
  cursor_offset none = answered 0
  cursor_offset (some cursor) = decoded_offset (t.decode cursor)

-- `_next_cursor`
unfoldable pub next_cursor : CursorText → ℕ → String
next_cursor t offset = t.encode (String.◌∷◌ "v" (String.◌∷◌ "1" (String.◌∷◌ ":" (t.str offset))))

-- The end of both reports: the page of `all_items` that starts at the offset, and its next cursor.
unfoldable pub page_at :
    {A : Type 0} → CursorText → OdooMcpError → List A → ℕ → ℕ → Reply (List A × Option String)
page_at t outside all_items limit offset =
    if ltb (length all_items) offset
    then refused outside
    else (let items = take limit (drop offset all_items) in
        let next_offset = offset + length items in
        answered (
          items,
          if ltb next_offset (length all_items) then some (next_cursor t next_offset) else none,
        ))
