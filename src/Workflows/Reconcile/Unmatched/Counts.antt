-- ===== src/Workflows/Reconcile/Unmatched/Counts.antt =====
-- Proofs about the counts of the report of unmatched lines.
use odoo_mcp.Prelude.{
  ℕ, ◌+◌, String, not, Option, some, List, [], ◌∷◌, ◌≡◌, refl, subst, arith, length, filter_by,
  str_eq, if◌then◌else◌,
}
use odoo_mcp.Workflows.Values.{
  Decimal, RelatedRecord, BankStatementLine, answered, ◌>>=◌, bind_answered, then_reply_answered,
  some_injective, answered_injective,
}
use odoo_mcp.Workflows.Adapter.{Adapter}
use odoo_mcp.Workflows.Sorting.{sort_by}
use odoo_mcp.Workflows.Cursors.{CursorText, cursor_offset, page_at}
use odoo_mcp.Workflows.Reconcile.{
  Decision, UnmatchedReason, no_eligible_candidate, below_confidence_threshold,
  ambiguous_best_match, candidate_conflict, find_journal, statement_lines, candidate_lines,
  read_journals, read_currencies,
}
use odoo_mcp.Workflows.Reconcile.Decisions.{subscript}
use odoo_mcp.Workflows.Reconcile.Conflicts.{decisions}
use odoo_mcp.Workflows.Reconcile.Reports.{UnmatchedStatementLineItem, unmatched_of}
use odoo_mcp.Workflows.Reconcile.Unmatched.{
  UnmatchedStatementLinesInput, UnmatchedStatementLinesSummary, UnmatchedStatementLinesResponse,
  reason_value, reason_count, unmatched_summary, unmatched_response, flag_statements,
  flag_unmatched_statement_lines, leb_unmatched,
}

one_reason :
    (r : UnmatchedReason)
    → (if str_eq (reason_value r) "no_eligible_candidate" then 1 else 0)
        + (if str_eq (reason_value r) "below_confidence_threshold" then 1 else 0)
        + (if str_eq (reason_value r) "ambiguous_best_match" then 1 else 0)
        + (if str_eq (reason_value r) "candidate_conflict" then 1 else 0)
      ≡ 1
one_reason no_eligible_candidate = refl
one_reason below_confidence_threshold = refl
one_reason ambiguous_best_match = refl
one_reason candidate_conflict = refl

-- The four counts make up the whole.
abbrev pub AddsUp : UnmatchedStatementLinesSummary → Type 0
AddsUp s =
    s.no_candidate_count + s.below_threshold_count + s.ambiguous_count + s.conflict_count
    ≡ s.unmatched_count

module _ {D : Type 0} where
  counts_add :
      (items : List (UnmatchedStatementLineItem D))
      → reason_count "no_eligible_candidate" items
          + reason_count "below_confidence_threshold" items
          + reason_count "ambiguous_best_match" items
          + reason_count "candidate_conflict" items
        ≡ length items
  unfolding reason_count
  counts_add [] = refl
  counts_add (i ∷ is) = omega (arith, one_reason i.reason_code, counts_add is)

  unmatched_response-AddsUp :
      (t : CursorText) (request : UnmatchedStatementLinesInput D) (request_id : String)
      (statements : List (BankStatementLine D)) (items : List (UnmatchedStatementLineItem D))
      (response : UnmatchedStatementLinesResponse D)
      → unmatched_response t request request_id statements items ≡ answered response
      → AddsUp response.summary
  unfolding unmatched_response unmatched_summary
  unmatched_response-AddsUp t request request_id statements items response h =
      let report = λ (page : List (UnmatchedStatementLineItem D) × Option String).
        let r : UnmatchedStatementLinesResponse D = record {
          request_id = request_id;
          company_id = request.company_id;
          period_start = request.period_start;
          period_end = request.period_end;
          items = page.0;
          next_cursor = page.1;
          summary = unmatched_summary statements items;
        } in
        r in
      let (offset, _, h') =
        bind_answered (cursor_offset t _ request.cursor)
          (λ offset. page_at t _ items request.limit offset >>= λ page. answered (report page))
          response h in
      let (page, _, h'') =
        bind_answered (page_at t _ items request.limit offset) (λ page. answered (report page))
          response h' in
      subst (λ (r : UnmatchedStatementLinesResponse D). AddsUp r.summary) (answered_injective h'')
        (counts_add items)

-- If the report of unmatched lines is answered, the counts of the four reasons add up to the count of
-- the unmatched lines.
pub flag_unmatched_statement_lines-AddsUp :
    {D : Type 0} (m : Decimal D) (adapter : Adapter D) (t : CursorText) (fold : String → String)
    (request : UnmatchedStatementLinesInput D) (company_currency : RelatedRecord)
    (request_id : String) (fuel : ℕ) (response : UnmatchedStatementLinesResponse D)
    → flag_unmatched_statement_lines m adapter t fold request company_currency request_id fuel
      ≡ some (answered response)
    → AddsUp response.summary
unfolding flag_unmatched_statement_lines flag_statements
flag_unmatched_statement_lines-AddsUp m adapter t fold request company_currency request_id fuel
      response h =
    let (all_statements, _, h1) =
      then_reply_answered _ (statement_lines adapter fuel request.company_id _ request.journal_id)
        response h in
    let (journals, _, h2) =
      then_reply_answered _ (read_journals adapter fuel request.company_id) response h1 in
    let (currencies, _, h3) =
      then_reply_answered _ (some (read_currencies adapter request.company_id _)) response h2 in
    let (candidates, _, h4) =
      then_reply_answered _ (candidate_lines adapter fuel request.company_id) response h3 in
    let statements = filter_by (λ (s : BankStatementLine _). not s.reconciled) all_statements in
    let (ds, _, h5) =
      bind_answered
        (decisions m fold statements candidates request.match_confidence_threshold journals
          company_currency currencies)
        (λ ds.
          unmatched_of
            (λ (d : Decision _). subscript (find_journal d.statement.journal.id journals))
            company_currency ds
          >>= λ items.
              unmatched_response t request request_id statements (sort_by leb_unmatched items))
        response (some_injective h4) in
    let (items, _, h6) =
      bind_answered
        (unmatched_of (λ (d : Decision _). subscript (find_journal d.statement.journal.id journals))
          company_currency ds)
        (λ items. unmatched_response t request request_id statements (sort_by leb_unmatched items))
        response h5 in
    unmatched_response-AddsUp t request request_id statements (sort_by leb_unmatched items) response
      h6
