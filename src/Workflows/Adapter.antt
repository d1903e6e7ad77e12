-- ===== src/Workflows/Adapter.antt =====
-- The calls of `OdooAdapter` (src/odoo_mcp/adapters/base.py) that the workflows make, and their filters
-- (src/odoo_mcp/adapters/accounting.py). The number of the call stands first, since the server may
-- answer two calls with the same arguments differently.
use odoo_mcp.Prelude.{ℕ, String, Bool, Option, List}
use odoo_mcp.Workflows.Values.{
  Currency, Journal, AccountMoveLine, BankStatementLine, RecordPage, Reply,
}

-- The values that the filters modelled here hold.
pub data FilterValue : Type 0 where
  text : String → FilterValue
  flag : Bool → FilterValue
  day : ℕ → FilterValue
  ids : List ℕ → FilterValue

pub record FilterClause : Type 0 where
  pub field : String
  pub operator : String
  pub value : FilterValue

pub record DatePeriod : Type 0 where
  pub start : ℕ
  pub end : ℕ

-- Pydantic refuses a limit outside 1 to 500, which none of the limits modelled is, and a cursor of more
-- than 128 characters, which the loop over the pages checks where it makes the request.
pub record PageRequest : Type 0 where
  pub limit : ℕ
  pub cursor : Option String

pub record Adapter (D : Type 0) : Type 0 where
  pub get_journals : ℕ → ℕ → PageRequest → Reply (RecordPage Journal)
  pub get_account_move_lines :
      ℕ → ℕ → List FilterClause → PageRequest → Reply (RecordPage (AccountMoveLine D))
  pub get_bank_statement_lines :
      ℕ → ℕ → DatePeriod → Option ℕ → PageRequest → Reply (RecordPage (BankStatementLine D))
  pub get_currencies : ℕ → ℕ → List ℕ → PageRequest → Reply (RecordPage (Currency D))
