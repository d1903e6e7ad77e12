-- ===== src/Workflows/Reconcile/Proposal/Totals.antt =====
-- Proofs about the counts of a proposal and the lines that it matches.
use odoo_mcp.Prelude.{
  ℕ, suc, ◌+◌, not, some, List, [], ◌∷◌, ◌≡◌, refl, ap, sym, subst, ◌∙◌, ◌≤◌, arith, Option-cases,
  inl, inr, map, length, ◌==◌, filter_by, if◌then◌else◌,
}
use odoo_mcp.Workflows.Values.{
  for_each, Decimal, RelatedRecord, Currency, Journal, BankStatementLine, answered, ◌>>=◌,
  bind_answered, then_reply_answered, some_injective, answered_injective,
}
use odoo_mcp.Workflows.Adapter.{Adapter}
use odoo_mcp.Workflows.Reconcile.{
  Decision, currency_or, find_journal, statement_lines, candidate_lines, read_journals,
  read_currencies, report_currency_ids,
}
use odoo_mcp.Workflows.Reconcile.Decisions.{subscript}
use odoo_mcp.Workflows.Reconcile.Conflicts.{decisions, chosen_count}
use odoo_mcp.Workflows.Reconcile.Reports.{
  UnmatchedStatementLineItem, ReconciliationMatch, matched_by, matches_of, unmatched_of,
}
use odoo_mcp.Workflows.Reconcile.Conflicts.Exclusive.{decisions-IsExclusive}
use odoo_mcp.Workflows.Reconcile.Complete.{decisions-IsComplete}
use odoo_mcp.Workflows.Reconcile.Decisions.Each.{for_each-length}
use odoo_mcp.Workflows.Reconcile.Proposal.{
  ReconciliationInput, ReconciliationProposal, Library, find_statement, select_statements,
  proposal_of, checked_request, requested_journal, refuse_reconciled, build_reconciliation_proposal,
}

module _ {D : Type 0} where
  -- How often a move line is matched.
  abbrev pub times_matched : ℕ → List (ReconciliationMatch D) → ℕ
  times_matched id [] = 0
  times_matched id (x ∷ xs) = (if x.move_line_id == id then 1 else 0) + times_matched id xs

  times_matched-matches_of :
      (currency : RelatedRecord) (ds : List (Decision D)) (id : ℕ)
      → times_matched id (matches_of currency ds) ≡ chosen_count id ds
  unfolding matches_of chosen_count
  times_matched-matches_of currency [] id = refl
  times_matched-matches_of currency (d ∷ ds) id = elim (Option-cases d.candidate) [
    | inl open_line ↦ rw open_line (ground (arith, times_matched-matches_of currency ds id))
    | inr (c, chosen) ↦ rw chosen (ground (arith, times_matched-matches_of currency ds id))
  ]

  length-matches_of :
      (currency : RelatedRecord) (ds : List (Decision D))
      → length (matches_of currency ds)
          + length (filter_by (λ (d : Decision D). not (matched_by d.candidate)) ds)
        ≡ length ds
  unfolding matches_of
  length-matches_of currency [] = refl
  length-matches_of currency (d ∷ ds) = elim (Option-cases d.candidate) [
    | inl open_line ↦ rw open_line (ground (arith, length-matches_of currency ds))
    | inr (c, chosen) ↦ rw chosen (ground (arith, length-matches_of currency ds))
  ]

  total_decided :
      (currency company_currency : RelatedRecord) (journal : Journal) (ds : List (Decision D))
      (items : List (UnmatchedStatementLineItem D))
      → unmatched_of (λ d. answered journal) company_currency ds ≡ answered items
      → length (matches_of currency ds) + length items ≡ length ds
  unfolding unmatched_of
  total_decided currency company_currency journal ds items h = omega (
    arith,
    length-matches_of currency ds,
    for_each-length _ (filter_by (λ (d : Decision D). not (matched_by d.candidate)) ds) items h,
  )

module _ {D : Type 0} (m : Decimal D) where
  select_statements-length :
      (ids : List ℕ) (statements selected : List (BankStatementLine D))
      → select_statements m ids statements ≡ answered selected
      → length selected ≡ length ids
  unfolding select_statements
  select_statements-length ids statements selected h =
      let (_, _, h') =
        bind_answered _ (λ u. for_each (λ i. subscript (find_statement i statements)) ids) selected
          h in
      for_each-length (λ i. subscript (find_statement i statements)) ids selected h'

  -- Every selected statement line is matched or not, and no move line is matched twice.
  pub record Balances (request : ReconciliationInput D) (proposal : ReconciliationProposal D)
      : Type 0 where
    pub reviewed : proposal.summary.statement_line_count ≡ length request.statement_line_ids
    pub parted :
        proposal.summary.matched_count + proposal.summary.unmatched_count
        ≡ proposal.summary.statement_line_count
    pub matched : proposal.summary.matched_count ≡ length proposal.matches
    pub unmatched : proposal.summary.unmatched_count ≡ length proposal.unmatched
    pub exclusive : (id : ℕ) → times_matched id proposal.matches ≤ 1

  proposal_of-Balances :
      (request : ReconciliationInput D) (journal : Journal) (company_currency : RelatedRecord)
      (selected : List (BankStatementLine D)) (ds : List (Decision D))
      (items : List (UnmatchedStatementLineItem D))
      → unmatched_of (λ d. answered journal) company_currency ds ≡ answered items
      → length ds ≡ length selected
      → length selected ≡ length request.statement_line_ids
      → ((id : ℕ) → chosen_count id ds ≤ 1)
      → Balances request (proposal_of m request journal company_currency selected ds items)
  unfolding proposal_of
  proposal_of-Balances request journal company_currency selected ds items h decided asked once =
      let currency = currency_or journal.currency company_currency in
      record {
        reviewed = asked;
        parted = omega (arith, total_decided currency company_currency journal ds items h);
        matched = refl;
        unmatched = refl;
        exclusive = λ id. omega (arith, times_matched-matches_of currency ds id, once id);
      }

  checked_request-length :
      (adapter : Adapter D) (request : ReconciliationInput D) (company_currency : RelatedRecord)
      (statements : List (BankStatementLine D)) (journals : List Journal) (journal : Journal)
      (currencies : List (Currency D)) (selected : List (BankStatementLine D))
      → checked_request m adapter request company_currency statements journals
        ≡ answered (journal, currencies, selected)
      → length selected ≡ length request.statement_line_ids
  checked_request-length adapter request company_currency statements journals journal currencies
        selected h =
      let currency_ids = report_currency_ids company_currency journals in
      let ids = request.statement_line_ids in
      let (j, _, h1) =
        bind_answered (requested_journal m (find_journal request.bank_journal_id journals))
          (λ j. read_currencies adapter request.company_id currency_ids >>= λ cs.
            select_statements m ids statements >>= λ ss.
            refuse_reconciled m ss >>= λ u. answered (j, cs, ss))
          (journal, currencies, selected) h in
      let (cs, _, h2) =
        bind_answered (read_currencies adapter request.company_id currency_ids)
          (λ cs. select_statements m ids statements >>= λ ss.
            refuse_reconciled m ss >>= λ u. answered (j, cs, ss))
          (journal, currencies, selected) h1 in
      let (ss, found, h3) =
        bind_answered (select_statements m ids statements)
          (λ ss. refuse_reconciled m ss >>= λ u. answered (j, cs, ss))
          (journal, currencies, selected) h2 in
      let (_, _, h4) =
        bind_answered (refuse_reconciled m ss) (λ u. answered (j, cs, ss))
          (journal, currencies, selected) h3 in
      let same : ss ≡ selected = cc h4 in
      select_statements-length ids statements selected (found ∙ ap answered same)

  length_statements :
      (ds : List (Decision D)) → length (map (λ (d : Decision D). d.statement) ds) ≡ length ds
  length_statements [] = refl
  length_statements (d ∷ ds) = ap suc (length_statements ds)

  -- If a proposal is returned, it reviews as many statement lines as were asked for, each of them
  -- matched or not, its counts are those of its lists, and no move line is matched twice.
  pub build_reconciliation_proposal-Balances :
      (adapter : Adapter D) (library : Library) (request : ReconciliationInput D)
      (company_currency : RelatedRecord) (fuel : ℕ) (proposal : ReconciliationProposal D)
      → build_reconciliation_proposal m adapter library request company_currency fuel
        ≡ some (answered proposal)
      → Balances request proposal
  unfolding build_reconciliation_proposal
  build_reconciliation_proposal-Balances adapter library request company_currency fuel proposal h =
      let (statements, _, h1) =
        then_reply_answered _ (statement_lines adapter fuel request.company_id _ _) proposal h in
      let (journals, _, h2) =
        then_reply_answered _ (read_journals adapter fuel request.company_id) proposal h1 in
      let ((journal, currencies, selected), checked, h3) =
        then_reply_answered _
          (some (checked_request m adapter request company_currency statements journals)) proposal
          h2 in
      let (candidates, _, h4) =
        then_reply_answered _ (candidate_lines adapter fuel request.company_id) proposal h3 in
      let threshold = request.match_confidence_threshold in
      let h5 : (decisions m library.fold selected candidates threshold journals company_currency
              currencies
            >>= λ ds. unmatched_of (λ d. answered journal) company_currency ds >>= λ unmatched.
                answered (proposal_of m request journal company_currency selected ds unmatched))
          ≡ answered proposal =
        some_injective h4 in
      let (ds, decided, h6) =
        bind_answered
          (decisions m library.fold selected candidates threshold journals company_currency
            currencies)
          (λ ds. unmatched_of (λ d. answered journal) company_currency ds >>= λ unmatched.
            answered (proposal_of m request journal company_currency selected ds unmatched))
          proposal h5 in
      let (items, listed, h7) =
        bind_answered (unmatched_of (λ d. answered journal) company_currency ds)
          (λ unmatched.
            answered (proposal_of m request journal company_currency selected ds unmatched))
          proposal h6 in
      let same : proposal_of m request journal company_currency selected ds items ≡ proposal =
        answered_injective h7 in
      let (_, statements_of) =
        decisions-IsComplete m library.fold selected candidates threshold journals company_currency
          currencies ds decided in
      subst (Balances request) same (
        proposal_of-Balances request journal company_currency selected ds items listed
          (sym (length_statements ds) ∙ ap length statements_of)
          (checked_request-length adapter request company_currency statements journals journal
            currencies selected (some_injective checked))
          (decisions-IsExclusive m library.fold selected candidates threshold journals
            company_currency currencies ds decided))
