-- ===== src/Tests/Redaction.antt =====
-- The theorems on redaction and field stripping, at a small value.
use odoo_mcp.Prelude.{String, pos, true, ◌≡◌, ◌↔◌}
use odoo_mcp.Json.{Json, num, str, obj, empty, entry}
use odoo_mcp.Json.Redact.{redact_sensitive, strip_denied_fields}
use odoo_mcp.Json.Redact.Laws.{masked, redact-masked}
use odoo_mcp.Json.Redact.Strip.{allowed, strip-allowed}

abbrev fold : String → String
fold s = s

abbrev value : Json
value = obj (
    entry "user" (obj (entry "password" (str "x") empty))
      (entry "barcode" (str "y") (entry "n" (num (pos 1)) empty)))

redact-masked_example :
    (masked fold (redact_sensitive fold value) ≡ true)
    × ((redact_sensitive fold value ≡ value) ↔ (masked fold value ≡ true))
redact-masked_example = redact-masked fold value

strip-allowed_example :
    (allowed fold (strip_denied_fields fold value) ≡ true)
    × ((strip_denied_fields fold value ≡ value) ↔ (allowed fold value ≡ true))
strip-allowed_example = strip-allowed fold value
