-- ===== src/Workflows/Reconcile/Unmatched.antt =====
-- `flag_unmatched_statement_lines` of src/odoo_mcp/workflows/accounting/reconcile_bank.py, without the
-- Markdown text of its response.
pub mod Safe
pub mod Counts
use odoo_mcp.Prelude.{
  ℕ, ◌+◌, String, Bool, true, false, ◌&&◌, ◌||◌, not, Option, none, some, List, [], ◌∷◌, map,
  length, any_of, all_of, ltb, leb, ◌==◌, filter_by, str_eq, if◌then◌else◌,
}
use odoo_mcp.Errors.{
  OdooMcpError, journal_not_found, statement_line_not_found, odoo_state_conflict, invalid_input,
}
use odoo_mcp.Workflows.Values.{
  for_each, Decimal, RelatedRecord, Currency, Journal, AccountMoveLine, BankStatementLine, Reply,
  answered, refused, crashed, ◌>>=◌, ◌>>◌, refuse_if, then_reply,
}
use odoo_mcp.Workflows.Adapter.{DatePeriod, Adapter}
use odoo_mcp.Workflows.Sorting.{sort_by}
use odoo_mcp.Workflows.Cursors.{CursorText, cursor_offset, page_at}
use odoo_mcp.Workflows.Reconcile.{
  Components, Candidate, Decision, UnmatchedReason, no_eligible_candidate,
  below_confidence_threshold, ambiguous_best_match, candidate_conflict, currency_or, find_journal,
  is_bank, statement_lines, candidate_lines, read_journals, read_currencies, report_currency_ids,
}
use odoo_mcp.Workflows.Reconcile.Decisions.{subscript, collect}
use odoo_mcp.Workflows.Reconcile.Conflicts.{decisions}
use odoo_mcp.Workflows.Reconcile.Reports.{
  UnmatchedStatementLineItem, ReconciliationMatch, matched_by, matches_of, unmatched_of, unmatched,
}

pub record UnmatchedStatementLinesInput (D : Type 0) : Type 0 where
  pub company_id : ℕ
  pub period_start : ℕ
  pub period_end : ℕ
  pub journal_id : Option ℕ
  pub match_confidence_threshold : D
  pub limit : ℕ
  pub cursor : Option String

pub record UnmatchedStatementLinesSummary : Type 0 where
  pub statement_line_count : ℕ
  pub unmatched_count : ℕ
  pub no_candidate_count : ℕ
  pub below_threshold_count : ℕ
  pub ambiguous_count : ℕ
  pub conflict_count : ℕ

pub record UnmatchedStatementLinesResponse (D : Type 0) : Type 0 where
  pub request_id : String
  pub company_id : ℕ
  pub period_start : ℕ
  pub period_end : ℕ
  pub items : List (UnmatchedStatementLineItem D)
  pub next_cursor : Option String
  pub summary : UnmatchedStatementLinesSummary

-- The reasons as the texts that the source counts.
abbrev pub reason_value : UnmatchedReason → String
reason_value no_eligible_candidate = "no_eligible_candidate"
reason_value below_confidence_threshold = "below_confidence_threshold"
reason_value ambiguous_best_match = "ambiguous_best_match"
reason_value candidate_conflict = "candidate_conflict"

abbrev invalid_cursor : OdooMcpError
invalid_cursor = record {
  code = invalid_input;
  safe_message = "The pagination cursor is invalid.";
  remediation_hint = "Restart the unmatched-line report without a cursor.";
}

abbrev outside_cursor : OdooMcpError
outside_cursor = record {
  code = invalid_input;
  safe_message = "The pagination cursor is outside this unmatched-line report.";
  remediation_hint = "Restart the report without a cursor.";
}

module _ {D : Type 0} where
  -- The order of the keys (date, statement_line_id).
  abbrev pub leb_unmatched : UnmatchedStatementLineItem D → UnmatchedStatementLineItem D → Bool
  leb_unmatched a b =
      ltb a.date b.date || (a.date == b.date && leb a.statement_line_id b.statement_line_id)

  -- `counts[reason]`
  unfoldable pub reason_count : String → List (UnmatchedStatementLineItem D) → ℕ
  reason_count reason [] = 0
  reason_count reason (i ∷ is) =
      (if str_eq (reason_value i.reason_code) reason then 1 else 0) + reason_count reason is

  unfoldable pub unmatched_summary :
      List (BankStatementLine D)
      → List (UnmatchedStatementLineItem D)
      → UnmatchedStatementLinesSummary
  unmatched_summary statements all_items = record {
    statement_line_count = length statements;
    unmatched_count = length all_items;
    no_candidate_count = reason_count "no_eligible_candidate" all_items;
    below_threshold_count = reason_count "below_confidence_threshold" all_items;
    ambiguous_count = reason_count "ambiguous_best_match" all_items;
    conflict_count = reason_count "candidate_conflict" all_items;
  }

  -- The report, once its items are sorted.
  unfoldable pub unmatched_response :
      CursorText
      → UnmatchedStatementLinesInput D
      → String
      → List (BankStatementLine D)
      → List (UnmatchedStatementLineItem D)
      → Reply (UnmatchedStatementLinesResponse D)
  unmatched_response t request request_id statements all_items =
      cursor_offset t invalid_cursor request.cursor >>= λ offset.
      page_at t outside_cursor all_items request.limit offset >>= λ (items, next).
      answered (record {
        request_id = request_id;
        company_id = request.company_id;
        period_start = request.period_start;
        period_end = request.period_end;
        items = items;
        next_cursor = next;
        summary = unmatched_summary statements all_items;
      })

module _ {D : Type 0} (m : Decimal D) where
  -- The report, once all is read; `journals[...]` raises KeyError where there is no such journal.
  unfoldable pub flag_statements :
      CursorText
      → (String → String)
      → UnmatchedStatementLinesInput D
      → RelatedRecord
      → String
      → List (BankStatementLine D)
      → List Journal
      → List (Currency D)
      → List (AccountMoveLine D)
      → Reply (UnmatchedStatementLinesResponse D)
  flag_statements t fold request company_currency request_id statements journals currencies
        candidates =
      decisions m fold statements candidates request.match_confidence_threshold journals
        company_currency currencies
      >>= λ ds.
          unmatched_of
            (λ (d : Decision D). subscript (find_journal d.statement.journal.id journals))
            company_currency ds
          >>= λ all_items.
              unmatched_response t request request_id statements (sort_by leb_unmatched all_items)

  -- `flag_unmatched_statement_lines`, on fuel for each of its loops over pages.
  unfoldable pub flag_unmatched_statement_lines :
      Adapter D
      → CursorText
      → (String → String)
      → UnmatchedStatementLinesInput D
      → RelatedRecord
      → String
      → ℕ
      → Option (Reply (UnmatchedStatementLinesResponse D))
  flag_unmatched_statement_lines adapter t fold request company_currency request_id fuel =
      then_reply
        (λ (all_statements : List (BankStatementLine D)).
          let statements =
            filter_by (λ (s : BankStatementLine D). not s.reconciled) all_statements in
          then_reply
            (λ (journals : List Journal).
              then_reply
                (λ (currencies : List (Currency D)).
                  then_reply
                    (λ (candidates : List (AccountMoveLine D)). some (
                      flag_statements t fold request company_currency request_id statements journals
                        currencies candidates))
                    (candidate_lines adapter fuel request.company_id))
                (some (
                  read_currencies adapter request.company_id
                    (report_currency_ids company_currency journals))))
            (read_journals adapter fuel request.company_id))
        (statement_lines adapter fuel request.company_id
          (record { start = request.period_start; end = request.period_end }) request.journal_id)
