-- ===== src/Tests/Matching.antt =====
-- The reconciliation of a small bank statement.
use odoo_mcp.Prelude.{
  ℕ, ℤ, pos, ◌-ℤ◌, ◌+ℤ◌, String, false, ◌≡◌, refl, none, some, List, [], ◌∷◌, All, map,
}
use odoo_mcp.Workflows.Values.{
  for_each, RelatedRecord, Currency, AccountMoveLine, BankStatementLine, answered,
}
use odoo_mcp.Workflows.Sorting.{insert_sorted, sort_by}
use odoo_mcp.Workflows.Reconcile.{Candidate, Decision, no_eligible_candidate}
use odoo_mcp.Workflows.Reconcile.Scoring.{
  is_roundable, round_currency_amount, candidate_of, components_of,
}
use odoo_mcp.Workflows.Reconcile.Buckets.{add_to, items_at}
use odoo_mcp.Workflows.Reconcile.Decisions.{
  lines_round, index_lines, judge, choose, choose_among, decide,
}
use odoo_mcp.Workflows.Reconcile.Conflicts.{chosen_count, settle, settle_all, decisions}
use odoo_mcp.Workflows.Reconcile.Complete.{IsComplete, decisions-IsComplete}
use odoo_mcp.Workflows.Reconcile.Justified.{IsJustified, decisions-IsJustified}
use odoo_mcp.Tests.Decimals.{hundredths, hundredths-IsSymmetric, hundredths-IsOrdered}
use odoo_mcp.Tests.Reports.{bank, line_on}

abbrev pub euro : RelatedRecord
euro = record { id = 1; name = "EUR" }

abbrev pub euros : Currency ℤ
euros = record { id = 1; name = "EUR"; rounding = pos 1 }

abbrev statement_on : ℕ → ℕ → ℤ → BankStatementLine ℤ
statement_on id date amount = record {
  id = id;
  date = date;
  payment_reference = none;
  amount = amount;
  foreign_currency = none;
  partner = none;
  journal = record { id = 7; name = "Bank" };
  company_id = 1;
  reconciled = false;
  move = none;
}

abbrev pub paid : BankStatementLine ℤ
paid = statement_on 9 11 (pos 70)

abbrev pub unknown : BankStatementLine ℤ
unknown = statement_on 8 12 (pos 5)

abbrev pub sale : AccountMoveLine ℤ
sale = line_on 2 11 (pos 70) (pos 0)

abbrev pub other_sale : AccountMoveLine ℤ
other_sale = line_on 3 30 (pos 70) (pos 0)

abbrev pub fold : String → String
fold s = s

abbrev pub sale_candidate : Candidate ℤ
sale_candidate = record {
  line = sale;
  score = pos 65;
  components = record {
    amount = pos 55;
    partner = pos 0;
    reference = pos 0;
    date_proximity = pos 10;
  };
}

abbrev decided : List (Decision ℤ)
decided =
    record {
      statement = paid;
      candidate = some sale_candidate;
      best_score = some (pos 65);
      reason = none;
    }
    ∷ record {
      statement = unknown;
      candidate = none;
      best_score = none;
      reason = some no_eligible_candidate;
    }
    ∷ []

decided_run :
    decisions hundredths fold
      (paid ∷ unknown ∷ [])
      (other_sale ∷ sale ∷ [])
      (pos 60)
      (bank ∷ [])
      euro
      (euros ∷ [])
    ≡ answered decided
unfolding decisions index_lines add_to items_at decide for_each choose_among choose judge
    candidate_of components_of round_currency_amount settle_all settle chosen_count sort_by
    insert_sorted ◌-ℤ◌ ◌+ℤ◌ lines_round is_roundable
decided_run = refl

decisions-IsJustified_example :
    All
      (IsJustified hundredths fold (other_sale ∷ sale ∷ []) (pos 60) (bank ∷ []) euro (euros ∷ []))
      decided
decisions-IsJustified_example =
    decisions-IsJustified hundredths fold (other_sale ∷ sale ∷ []) (pos 60) (bank ∷ []) euro
      (euros ∷ []) (paid ∷ unknown ∷ []) decided hundredths-IsSymmetric hundredths-IsOrdered
      decided_run

decisions-IsComplete_example :
    All (IsComplete (bank ∷ [])) decided
    × (map (λ (d : Decision ℤ). d.statement) decided ≡ paid ∷ unknown ∷ [])
decisions-IsComplete_example =
    decisions-IsComplete hundredths fold (paid ∷ unknown ∷ []) (other_sale ∷ sale ∷ []) (pos 60)
      (bank ∷ []) euro (euros ∷ []) decided decided_run
