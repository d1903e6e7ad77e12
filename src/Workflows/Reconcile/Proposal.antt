-- ===== src/Workflows/Reconcile/Proposal.antt =====
-- `build_reconciliation_proposal` of src/odoo_mcp/workflows/accounting/reconcile_bank.py, without the
-- Markdown text of its response.
pub mod Totals
use odoo_mcp.Prelude.{
  ℕ, ◌+◌, String, Bool, true, false, ◌&&◌, ◌||◌, not, Option, none, some, List, [], ◌∷◌, map,
  length, any_of, all_of, ltb, leb, ◌==◌, filter_by, if◌then◌else◌,
}
use odoo_mcp.Errors.{
  OdooMcpError, journal_not_found, statement_line_not_found, odoo_state_conflict, invalid_input,
}
use odoo_mcp.Workflows.Values.{
  for_each, Decimal, RelatedRecord, Currency, Journal, AccountMoveLine, BankStatementLine, Reply,
  answered, refused, crashed, ◌>>=◌, ◌>>◌, refuse_if, then_reply,
}
use odoo_mcp.Workflows.Adapter.{DatePeriod, Adapter}
use odoo_mcp.Workflows.Sorting.{sort_by}
use odoo_mcp.Workflows.Cursors.{CursorText, cursor_offset, page_at}
use odoo_mcp.Workflows.Reconcile.{
  Components, Candidate, Decision, UnmatchedReason, no_eligible_candidate,
  below_confidence_threshold, ambiguous_best_match, candidate_conflict, currency_or, find_journal,
  is_bank, statement_lines, candidate_lines, read_journals, read_currencies, report_currency_ids,
}
use odoo_mcp.Workflows.Reconcile.Decisions.{subscript, collect}
use odoo_mcp.Workflows.Reconcile.Conflicts.{decisions}
use odoo_mcp.Workflows.Reconcile.Reports.{
  UnmatchedStatementLineItem, ReconciliationMatch, matched_by, matches_of, unmatched_of, unmatched,
}

pub record ReconciliationSummary (D : Type 0) : Type 0 where
  pub statement_line_count : ℕ
  pub matched_count : ℕ
  pub unmatched_count : ℕ
  pub currency_id : ℕ
  pub currency_name : String
  pub matched_amount : D
  pub unmatched_amount : D

pub record ReconciliationProposal (D : Type 0) : Type 0 where
  pub company_id : ℕ
  pub period : String
  pub bank_journal_id : ℕ
  pub matches : List (ReconciliationMatch D)
  pub unmatched : List (UnmatchedStatementLineItem D)
  pub summary : ReconciliationSummary D
  pub risk_flags : List String

pub record ReconciliationInput (D : Type 0) : Type 0 where
  pub company_id : ℕ
  pub period : String
  pub bank_journal_id : ℕ
  pub statement_line_ids : List ℕ
  pub match_confidence_threshold : D

-- What the proposal takes from Python's library: `" ".join(value.split()).casefold()`, and the days of
-- a month that a text names, by `date` and `calendar.monthrange`.
pub record Library : Type 0 where
  pub fold : String → String
  pub period : String → DatePeriod

-- A dict of statement lines under their ids.
abbrev pub find_statement :
    {D : Type 0} → ℕ → List (BankStatementLine D) → Option (BankStatementLine D)
find_statement id [] = none
find_statement id (s ∷ ss) = let rest = find_statement id ss in if s.id == id then some s else rest

abbrev unavailable_journal : OdooMcpError
unavailable_journal = record {
  code = journal_not_found;
  safe_message = "The requested bank journal is unavailable.";
  remediation_hint = "Use a cash or bank journal available to the authorized company.";
}

abbrev is_none : {A : Type 0} → Option A → Bool
is_none none = true
is_none (some a) = false

abbrev is_empty : {D : Type 0} → List (UnmatchedStatementLineItem D) → Bool
is_empty [] = true
is_empty (x ∷ xs) = false

module _ {D : Type 0} (m : Decimal D) where
  -- Python's `sum(values, _ZERO)`.
  unfoldable pub sum_of {ℓ} : {A : Type ℓ} → (A → D) → D → List A → D
  sum_of f acc [] = acc
  sum_of f acc (x ∷ xs) = sum_of f (m.plus acc (f x)) xs

  -- The proposal, once the decisions are taken on the selected lines.
  unfoldable pub proposal_of :
      ReconciliationInput D
      → Journal
      → RelatedRecord
      → List (BankStatementLine D)
      → List (Decision D)
      → List (UnmatchedStatementLineItem D)
      → ReconciliationProposal D
  proposal_of request journal company_currency selected ds unmatched =
      let currency = currency_or journal.currency company_currency in
      let matches = matches_of currency ds in
      record {
        company_id = request.company_id;
        period = request.period;
        bank_journal_id = request.bank_journal_id;
        matches = matches;
        unmatched = unmatched;
        summary = record {
          statement_line_count = length selected;
          matched_count = length matches;
          unmatched_count = length unmatched;
          currency_id = currency.id;
          currency_name = currency.name;
          matched_amount =
              sum_of (λ (d : Decision D). d.statement.amount) (m.of_text "0")
                (filter_by (λ (d : Decision D). matched_by d.candidate) ds);
          unmatched_amount =
              sum_of (λ (i : UnmatchedStatementLineItem D). i.amount) (m.of_text "0") unmatched;
        };
        risk_flags =
            "proposal_only"
            ∷ "no_final_reconciliation"
            ∷ (if is_empty unmatched then [] else "manual_review_required" ∷ []);
      }

  -- `[by_id[i] for i in ids]`, after the check that none is missing.
  unfoldable pub select_statements :
      List ℕ → List (BankStatementLine D) → Reply (List (BankStatementLine D))
  select_statements ids statements = do
    refuse_if (any_of (λ i. is_none (find_statement i statements)) ids) (record {
      code = statement_line_not_found;
      safe_message = "One or more requested bank statement lines are unavailable.";
      remediation_hint =
          "Use unreconciled statement line IDs from the selected period and journal.";
    })
    for_each (λ i. subscript (find_statement i statements)) ids

  abbrev requested_journal : Option Journal → Reply Journal
  requested_journal none = refused unavailable_journal
  requested_journal (some j) = if is_bank j then answered j else refused unavailable_journal

  abbrev refuse_reconciled : List (BankStatementLine D) → Reply (Unit {0})
  refuse_reconciled selected =
      refuse_if (any_of (λ (s : BankStatementLine D). s.reconciled) selected) (record {
        code = odoo_state_conflict;
        safe_message = "One or more bank statement lines are already reconciled.";
        remediation_hint = "Refresh the statement lines and submit only unreconciled records.";
      })

  -- What is read and checked between the journals and the candidates.
  abbrev pub checked_request :
      Adapter D
      → ReconciliationInput D
      → RelatedRecord
      → List (BankStatementLine D)
      → List Journal
      → Reply (Journal × List (Currency D) × List (BankStatementLine D))
  checked_request adapter request company_currency statements journals = do
    journal ← requested_journal (find_journal request.bank_journal_id journals)
    currencies ←
        read_currencies adapter request.company_id (report_currency_ids company_currency journals)
    selected ← select_statements request.statement_line_ids statements
    refuse_reconciled selected
    answered (journal, currencies, selected)

  -- `build_reconciliation_proposal`, on fuel for each of its loops over pages.
  unfoldable pub build_reconciliation_proposal :
      Adapter D
      → Library
      → ReconciliationInput D
      → RelatedRecord
      → ℕ
      → Option (Reply (ReconciliationProposal D))
  build_reconciliation_proposal adapter library request company_currency fuel =
      then_reply
        (λ statements.
          then_reply
            (λ (journals : List Journal).
              then_reply
                (λ (journal, currencies, selected).
                  then_reply
                    (λ candidates. some (
                      decisions m library.fold selected candidates
                        request.match_confidence_threshold journals company_currency currencies
                      >>= λ ds.
                          unmatched_of (λ d. answered journal) company_currency ds >>= λ unmatched.
                          answered
                            (proposal_of request journal company_currency selected ds unmatched)))
                    (candidate_lines adapter fuel request.company_id))
                (some (checked_request adapter request company_currency statements journals)))
            (read_journals adapter fuel request.company_id))
        (statement_lines adapter fuel request.company_id (library.period request.period)
          (some request.bank_journal_id))
