-- ===== src/Workflows/Reconcile/Unmatched/Safe.antt =====
-- Proofs that the report of unmatched lines raises no KeyError, AssertionError, ValidationError or
-- InvalidOperation.
use odoo_mcp.Prelude.{ℕ, true, ◌≡◌, ◌≢◌, Option, some, List, All}
use odoo_mcp.Workflows.Values.{
  Decimal, RelatedRecord, Currency, Journal, AccountMoveLine, BankStatementLine, answered, crashed,
}
use odoo_mcp.Workflows.Crashes.{ShortCursors}
use odoo_mcp.Workflows.Paging.{source_page_size}
use odoo_mcp.Workflows.Reconcile.{
  find_currency, statement_lines, candidate_lines, read_journals, read_currencies,
  report_currency_ids,
}
use odoo_mcp.Workflows.Reconcile.Decisions.{lines_round}
use odoo_mcp.Workflows.Adapter.{PageRequest, DatePeriod, FilterClause, Adapter}
use odoo_mcp.Workflows.Reconcile.Unmatched.{UnmatchedStatementLinesInput}
use odoo_mcp.Workflows.Reconcile.Safe.{IsRoundable}

module _ {D : Type 0} (m : Decimal D) where
  -- No call of the adapter raises anything but its structured errors, and no cursor that it answers is
  -- longer than a PageRequest takes.
  pub record IsTidy (adapter : Adapter D) : Type 0 where
    pub journals :
        (call company_id : ℕ) (page : PageRequest)
        → adapter.get_journals call company_id page ≢ crashed
    pub move_lines :
        (call company_id : ℕ) (filters : List FilterClause) (page : PageRequest)
        → adapter.get_account_move_lines call company_id filters page ≢ crashed
    pub statements :
        (call company_id : ℕ) (period : DatePeriod) (journal_id : Option ℕ) (page : PageRequest)
        → adapter.get_bank_statement_lines call company_id period journal_id page ≢ crashed
    pub currencies :
        (call company_id : ℕ) (ids : List ℕ) (page : PageRequest)
        → adapter.get_currencies call company_id ids page ≢ crashed
    pub journal_cursors :
        (company_id : ℕ)
        → ShortCursors (λ call cursor.
          adapter.get_journals call company_id
            (record { limit = source_page_size; cursor = cursor }))
    pub move_line_cursors :
        (company_id : ℕ) (filters : List FilterClause)
        → ShortCursors (λ call cursor.
          adapter.get_account_move_lines call company_id filters
            (record { limit = source_page_size; cursor = cursor }))
    pub statement_cursors :
        (company_id : ℕ) (period : DatePeriod) (journal_id : Option ℕ)
        → ShortCursors (λ call cursor.
          adapter.get_bank_statement_lines call company_id period journal_id
            (record { limit = source_page_size; cursor = cursor }))

  -- Each amount that the report rounds can be rounded to the currency that it is rounded to.
  pub record AreRoundable (adapter : Adapter D) (fuel : ℕ)
      (request : UnmatchedStatementLinesInput D) (company_currency : RelatedRecord) : Type 0 where
    pub lines :
        (journals : List Journal) (currencies : List (Currency D))
        (candidates : List (AccountMoveLine D)) (company_value : Currency D)
        → read_journals adapter fuel request.company_id ≡ some (answered journals)
        → read_currencies adapter request.company_id (report_currency_ids company_currency journals)
          ≡ answered currencies
        → candidate_lines adapter fuel request.company_id ≡ some (answered candidates)
        → find_currency company_currency.id currencies ≡ some company_value
        → lines_round m company_currency company_value currencies candidates ≡ true
    pub statements :
        (journals : List Journal) (currencies : List (Currency D))
        (statements : List (BankStatementLine D))
        → read_journals adapter fuel request.company_id ≡ some (answered journals)
        → read_currencies adapter request.company_id (report_currency_ids company_currency journals)
          ≡ answered currencies
        → statement_lines adapter fuel request.company_id
            (record { start = request.period_start; end = request.period_end })
            request.journal_id
          ≡ some (answered statements)
        → All (IsRoundable m currencies) statements
