-- ===== src/Storage/Platform.antt =====
-- What the storage takes from Python's library and does not implement: case folding, the canonical
-- JSON text, SHA-256 and the text of a time. Nothing is assumed of them.
use odoo_mcp.Prelude.{ℕ, String}
use odoo_mcp.Json.{Json}

pub record Platform : Type 0 where
  pub casefold : String → String
  -- `canonical_json`, which is `json.dumps` with sorted keys
  pub canonical_json : Json → String
  -- `hashlib.sha256(text.encode()).hexdigest()`
  pub sha256 : String → String
  -- `timestamp`
  pub isoformat : ℕ → String
