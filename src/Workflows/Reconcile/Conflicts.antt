-- ===== src/Workflows/Reconcile/Conflicts.antt =====
-- The end of `_decisions` of src/odoo_mcp/workflows/accounting/reconcile_bank.py, which takes back the
-- decisions that chose one line, and the whole of `_decisions`.
pub mod Exclusive
use odoo_mcp.Prelude.{
  ℕ, ◌+◌, String, Bool, true, false, ◌&&◌, Option, none, some, List, [], ◌∷◌, map, ltb, ◌==◌,
  if◌then◌else◌,
}
use odoo_mcp.Workflows.Values.{
  for_each, Decimal, RelatedRecord, Currency, Journal, AccountMoveLine, BankStatementLine, Reply,
  answered, refused, crashed, ◌>>=◌,
}
use odoo_mcp.Workflows.Reconcile.{Candidate, Decision, candidate_conflict, find_currency}
use odoo_mcp.Workflows.Reconcile.Decisions.{
  empty_index, index_lines, lines_round, crash_unless, eligible, decide, subscript,
}

module _ {D : Type 0} where
  abbrev pub chose : ℕ → Option (Candidate D) → Bool
  chose id none = false
  chose id (some c) = c.line.id == id

  -- `chosen_counts[id]`
  unfoldable pub chosen_count : ℕ → List (Decision D) → ℕ
  chosen_count id [] = 0
  chosen_count id (d ∷ ds) = (if chose id d.candidate then 1 else 0) + chosen_count id ds

  -- The candidate is the choice of several decisions.
  abbrev pub is_contested : List (Decision D) → Option (Candidate D) → Bool
  is_contested provisional none = false
  is_contested provisional (some c) = ltb 1 (chosen_count c.line.id provisional)

  unfoldable pub settle : List (Decision D) → Decision D → Decision D
  settle provisional d =
      if is_contested provisional d.candidate
      then record {
        statement = d.statement;
        candidate = none;
        best_score = d.best_score;
        reason = some candidate_conflict;
      }
      else d

  unfoldable pub settle_all : List (Decision D) → List (Decision D)
  settle_all provisional = map (settle provisional) provisional

module _ {D : Type 0} (m : Decimal D) where
  -- `_decisions`
  unfoldable pub decisions :
      (String → String)
      → List (BankStatementLine D)
      → List (AccountMoveLine D)
      → D
      → List Journal
      → RelatedRecord
      → List (Currency D)
      → Reply (List (Decision D))
  decisions fold statements candidates threshold journals company_currency currencies =
      subscript (find_currency company_currency.id currencies) >>= λ company_value.
      crash_unless (lines_round m company_currency company_value currencies candidates) >>= λ _.
      for_each
        (decide m fold threshold journals company_currency (
          eligible m company_value currencies
            (index_lines m company_currency company_value currencies candidates empty_index)))
        statements
      >>= λ provisional. answered (settle_all provisional)
