-- ===== src/Tests/Proposing.antt =====
-- The two reports of the reconciliation on a small ledger.
use odoo_mcp.Prelude.{ℤ, pos, ◌-ℤ◌, ◌+ℤ◌, ◌≡◌, refl, none, some, List, [], ◌∷◌}
use odoo_mcp.Workflows.Values.{for_each, RecordPage, Reply, answered}
use odoo_mcp.Workflows.Adapter.{Adapter}
use odoo_mcp.Workflows.Paging.{
  read_items, next_turn, after_items, turn, read_pages, read_all, max_source_records,
}
use odoo_mcp.Workflows.Cursors.{cursor_offset, page_at, next_cursor}
use odoo_mcp.Workflows.Sorting.{insert_sorted, sort_by}
use odoo_mcp.Workflows.Reconcile.{
  no_eligible_candidate, statement_lines, candidate_lines, read_journals, read_currencies,
  checked_currencies, report_currency_ids, sorted_set, max_source_currencies,
}
use odoo_mcp.Workflows.Reconcile.Scoring.{
  is_roundable, round_currency_amount, candidate_of, components_of,
}
use odoo_mcp.Workflows.Reconcile.Buckets.{add_to, items_at}
use odoo_mcp.Workflows.Reconcile.Decisions.{
  lines_round, index_lines, judge, choose, choose_among, decide,
}
use odoo_mcp.Workflows.Reconcile.Conflicts.{chosen_count, settle, settle_all, decisions}
use odoo_mcp.Workflows.Reconcile.Reports.{
  UnmatchedStatementLineItem, unmatched, unmatched_of, matches_of,
}
use odoo_mcp.Workflows.Reconcile.Proposal.{
  ReconciliationInput, ReconciliationProposal, Library, sum_of, select_statements, proposal_of,
  build_reconciliation_proposal,
}
use odoo_mcp.Workflows.Reconcile.Proposal.Totals.{Balances, build_reconciliation_proposal-Balances}
use odoo_mcp.Workflows.Reconcile.Unmatched.{
  UnmatchedStatementLinesInput, UnmatchedStatementLinesResponse, reason_count, unmatched_summary,
  unmatched_response, flag_statements, flag_unmatched_statement_lines,
}
use odoo_mcp.Workflows.Reconcile.Unmatched.Counts.{AddsUp, flag_unmatched_statement_lines-AddsUp}
use odoo_mcp.Tests.Decimals.{hundredths, tallies}
use odoo_mcp.Tests.Reports.{bank}
use odoo_mcp.Tests.Matching.{euro, euros, paid, unknown, sale, other_sale, fold, sale_candidate}

abbrev one_page : {A : Type 0} → List A → Reply (RecordPage A)
one_page items = answered (record { items = items; next_cursor = none })

abbrev bank_ledger : Adapter ℤ
bank_ledger = record {
  get_journals = λ call company page. one_page (bank ∷ []);
  get_account_move_lines = λ call company filters page. one_page (other_sale ∷ sale ∷ []);
  get_bank_statement_lines = λ call company period journal page. one_page (paid ∷ unknown ∷ []);
  get_currencies = λ call company ids page. one_page (euros ∷ []);
}

abbrev library : Library
library = record { fold = fold; period = λ s. record { start = 10; end = 20 } }

abbrev both_lines : ReconciliationInput ℤ
both_lines = record {
  company_id = 1;
  period = "2026-01";
  bank_journal_id = 7;
  statement_line_ids = 9 ∷ 8 ∷ [];
  match_confidence_threshold = pos 60;
}

abbrev open_item : UnmatchedStatementLineItem ℤ
open_item = record {
  statement_line_id = 8;
  date = 12;
  amount = pos 5;
  currency_id = 1;
  currency_name = "EUR";
  partner_id = none;
  partner_name = none;
  reference = none;
  best_rejected_score = none;
  reason_code = no_eligible_candidate;
}

abbrev both_proposed : ReconciliationProposal ℤ
both_proposed = record {
  company_id = 1;
  period = "2026-01";
  bank_journal_id = 7;
  matches =
      record {
        statement_line_id = 9;
        move_line_id = 2;
        amount = pos 70;
        currency_id = 1;
        currency_name = "EUR";
        confidence = pos 65;
        score_components = sale_candidate.components;
      }
      ∷ [];
  unmatched = open_item ∷ [];
  summary = record {
    statement_line_count = 2;
    matched_count = 1;
    unmatched_count = 1;
    currency_id = 1;
    currency_name = "EUR";
    matched_amount = pos 70;
    unmatched_amount = pos 5;
  };
  risk_flags = "proposal_only" ∷ "no_final_reconciliation" ∷ "manual_review_required" ∷ [];
}

proposal_run :
    build_reconciliation_proposal hundredths bank_ledger library both_lines euro 1
    ≡ some (answered both_proposed)
unfolding build_reconciliation_proposal statement_lines candidate_lines read_journals
    read_currencies checked_currencies report_currency_ids sorted_set max_source_currencies
    select_statements unmatched_of unmatched matches_of proposal_of sum_of decisions index_lines
    add_to items_at decide for_each choose_among choose judge candidate_of components_of
    round_currency_amount settle_all settle chosen_count sort_by insert_sorted read_all read_pages
    turn after_items next_turn read_items max_source_records ◌-ℤ◌ ◌+ℤ◌ lines_round is_roundable
proposal_run = refl

build_reconciliation_proposal-Balances_example : Balances hundredths both_lines both_proposed
build_reconciliation_proposal-Balances_example =
    build_reconciliation_proposal-Balances hundredths bank_ledger library both_lines euro 1
      both_proposed proposal_run

abbrev open_request : UnmatchedStatementLinesInput ℤ
open_request = record {
  company_id = 1;
  period_start = 10;
  period_end = 20;
  journal_id = none;
  match_confidence_threshold = pos 60;
  limit = 5;
  cursor = none;
}

abbrev open_report : UnmatchedStatementLinesResponse ℤ
open_report = record {
  request_id = "r";
  company_id = 1;
  period_start = 10;
  period_end = 20;
  items = open_item ∷ [];
  next_cursor = none;
  summary = record {
    statement_line_count = 2;
    unmatched_count = 1;
    no_candidate_count = 1;
    below_threshold_count = 0;
    ambiguous_count = 0;
    conflict_count = 0;
  };
}

report_run :
    flag_unmatched_statement_lines hundredths bank_ledger tallies fold open_request euro "r" 1
    ≡ some (answered open_report)
unfolding flag_unmatched_statement_lines flag_statements unmatched_response unmatched_summary
    reason_count cursor_offset page_at next_cursor statement_lines candidate_lines read_journals
    read_currencies checked_currencies report_currency_ids sorted_set max_source_currencies
    unmatched_of unmatched decisions index_lines add_to items_at decide for_each choose_among choose
    judge candidate_of components_of round_currency_amount settle_all settle chosen_count sort_by
    insert_sorted read_all read_pages turn after_items next_turn read_items max_source_records ◌-ℤ◌
    ◌+ℤ◌ lines_round is_roundable
report_run = refl

flag_unmatched_statement_lines-AddsUp_example : AddsUp open_report.summary
flag_unmatched_statement_lines-AddsUp_example =
    flag_unmatched_statement_lines-AddsUp hundredths bank_ledger tallies fold open_request euro "r"
      1 open_report report_run
