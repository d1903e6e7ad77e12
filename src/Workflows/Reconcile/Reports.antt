-- ===== src/Workflows/Reconcile/Reports.antt =====
-- The items of both reports of src/odoo_mcp/workflows/accounting/reconcile_bank.py, and `_unmatched`.
use odoo_mcp.Prelude.{ℕ, String, Bool, true, false, not, Option, none, some, List, filter_by}
use odoo_mcp.Workflows.Values.{
  for_each, RelatedRecord, id_of_related, name_of_related, Journal, BankStatementLine, Reply,
  answered, crashed, ◌>>=◌,
}
use odoo_mcp.Workflows.Reconcile.{Components, Candidate, Decision, UnmatchedReason, currency_or}
use odoo_mcp.Workflows.Reconcile.Decisions.{collect}

pub record UnmatchedStatementLineItem (D : Type 0) : Type 0 where
  pub statement_line_id : ℕ
  pub date : ℕ
  pub amount : D
  pub currency_id : ℕ
  pub currency_name : String
  pub partner_id : Option ℕ
  pub partner_name : Option String
  pub reference : Option String
  pub best_rejected_score : Option D
  pub reason_code : UnmatchedReason

pub record ReconciliationMatch (D : Type 0) : Type 0 where
  pub statement_line_id : ℕ
  pub move_line_id : ℕ
  pub amount : D
  pub currency_id : ℕ
  pub currency_name : String
  pub confidence : D
  pub score_components : Components D

module _ {D : Type 0} where
  abbrev pub unmatched_item :
      Decision D → RelatedRecord → UnmatchedReason → UnmatchedStatementLineItem D
  unmatched_item d currency reason = record {
    statement_line_id = d.statement.id;
    date = d.statement.date;
    amount = d.statement.amount;
    currency_id = currency.id;
    currency_name = currency.name;
    partner_id = id_of_related d.statement.partner;
    partner_name = name_of_related d.statement.partner;
    reference = d.statement.payment_reference;
    best_rejected_score = d.best_score;
    reason_code = reason;
  }

  -- `_unmatched`; without a reason it raises AssertionError.
  unfoldable pub unmatched :
      Decision D
      → Journal
      → RelatedRecord
      → Option UnmatchedReason
      → Reply (UnmatchedStatementLineItem D)
  unmatched d journal company_currency none = crashed
  unmatched d journal company_currency (some reason) =
      answered (unmatched_item d (currency_or journal.currency company_currency) reason)

  abbrev pub matched_by : Option (Candidate D) → Bool
  matched_by none = false
  matched_by (some c) = true

  abbrev match_with :
      RelatedRecord → BankStatementLine D → Option (Candidate D) → Option (ReconciliationMatch D)
  match_with currency s none = none
  match_with currency s (some c) = some (record {
    statement_line_id = s.id;
    move_line_id = c.line.id;
    amount = s.amount;
    currency_id = currency.id;
    currency_name = currency.name;
    confidence = c.score;
    score_components = c.components;
  })

  unfoldable pub matches_of : RelatedRecord → List (Decision D) → List (ReconciliationMatch D)
  matches_of currency ds =
      collect (λ (d : Decision D). match_with currency d.statement d.candidate) ds

  -- `[_unmatched(d, ...) for d in decisions if d.candidate is None]`
  unfoldable pub unmatched_of :
      (Decision D → Reply Journal)
      → RelatedRecord
      → List (Decision D)
      → Reply (List (UnmatchedStatementLineItem D))
  unmatched_of journal_of company_currency ds =
      for_each (λ d. journal_of d >>= λ journal. unmatched d journal company_currency d.reason)
        (filter_by (λ (d : Decision D). not (matched_by d.candidate)) ds)
