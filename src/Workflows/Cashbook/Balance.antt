-- ===== src/Workflows/Cashbook/Balance.antt =====
-- Proofs about the totals of the cashbook.
use odoo_mcp.Prelude.{
  any_of, ◌==◌, ℕ, String, Bool, true, ◌≡◌, subst, sym, ap, ◌∙◌, Option, some, List, [], ◌∷◌, map,
  All, filter_by, ltb as ltb_ℕ, leb, arith, Bool-cases, inl, inr,
}
use odoo_mcp.Workflows.Values.{
  some_injective, Decimal, Journal, AccountMoveLine, answered, ◌>>=◌, bind_answered,
  then_reply_answered,
}
use odoo_mcp.Workflows.Adapter.{Adapter}
use odoo_mcp.Workflows.Cursors.{CursorText, cursor_offset, page_at}
use odoo_mcp.Workflows.Sorting.{sort_by}
use odoo_mcp.Workflows.Paging.{source_page_size}
use odoo_mcp.Workflows.Paging.Contents.{IsGood, read_all-Returned}
use odoo_mcp.Workflows.Cashbook.{
  is_cash, CashbookInput, CashbookItem, CashbookSummary, CashbookResponse, line_filters,
  zero_decimal, is_selected, line_reader, invalid_cursor, outside_cursor, select_journals,
}
use odoo_mcp.Workflows.Cashbook.Report.{
  sum_from, item_of, leb_item, opening_of, items_of, summarize, cashbook_response, read_lines,
  read_journals, get_cashbook, summarized,
}
use odoo_mcp.Workflows.Cashbook.Names.{All-named}
use odoo_mcp.Workflows.Cashbook.Sums.{
  IsExact, total, total-cons, total-sort_by, total-map, total-filter_by,
}

module _ {D : Type 0} (m : Decimal D) where
  -- What a response was computed from: the lines read, all of them consistent.
  pub record Computed (adapter : Adapter D) (fuel : ℕ) (request : CashbookInput)
      (response : CashbookResponse D) : Type 0 where
    pub available : List Journal
    pub journal_ids : List ℕ
    pub lines : List (AccountMoveLine D)
    pub listed : read_journals m adapter request.company_id fuel ≡ some (answered available)
    pub read : read_lines m adapter request fuel journal_ids ≡ some (answered lines)
    pub selected : select_journals request.journal_ids available ≡ answered journal_ids
    pub consistent :
        All
          (λ (l : AccountMoveLine D). (line_reader m request.company_id).is_consistent l ≡ true)
          lines
    pub named :
        All
          (λ (l : AccountMoveLine D).
            any_of (λ (j : Journal). j.id == l.journal.id) (filter_by is_cash available) ≡ true)
          (filter_by (is_selected m request journal_ids) lines)
    pub summary :
        let filtered = filter_by (is_selected m request journal_ids) lines in
        response.summary
        ≡ summarize m (opening_of m request filtered) (items_of m request available filtered)

module _ {D : Type 0} (m : Decimal D) (exact : IsExact m) where
  abbrev Adds : AccountMoveLine D → Type 0
  Adds l = l.balance ≡ m.minus l.debit l.credit

  total-minus :
      (xs : List (AccountMoveLine D))
      → All Adds xs
      → m.minus
          (total m (λ (l : AccountMoveLine D). l.debit) xs)
          (total m (λ (l : AccountMoveLine D). l.credit) xs)
        ≡ total m (λ (l : AccountMoveLine D). l.balance) xs
  unfolding sum_from
  total-minus [] w = exact.minus_zero (zero_decimal m)
  total-minus (x ∷ xs) w =
      let debit = λ (l : AccountMoveLine D). l.debit in
      let credit = λ (l : AccountMoveLine D). l.credit in
      let balance = λ (l : AccountMoveLine D). l.balance in
      ap (λ d. m.minus d (total m credit (x ∷ xs))) (total-cons m exact debit x xs)
      ∙ ap (m.minus (m.plus x.debit (total m debit xs))) (total-cons m exact credit x xs)
      ∙ exact.minus_plus x.debit (total m debit xs) x.credit (total m credit xs)
      ∙ ap (λ d. m.plus d (m.minus (total m debit xs) (total m credit xs))) (sym w.0)
      ∙ ap (m.plus x.balance) (total-minus xs w.1)
      ∙ sym (total-cons m exact balance x xs)

  All-filter_by :
      (P : AccountMoveLine D → Type 0) (p : AccountMoveLine D → Bool)
      (xs : List (AccountMoveLine D))
      → All P xs
      → All P (filter_by p xs)
  All-filter_by P p [] w = tt
  All-filter_by P p (x ∷ xs) w = elim (Bool-cases (p x)) [
    | inl yes_p ↦ rw yes_p (w.0, All-filter_by P p xs w.1)
    | inr not_p ↦ rw not_p (All-filter_by P p xs w.1)
  ]

  period_totals :
      (request : CashbookInput) (available : List Journal) (filtered : List (AccountMoveLine D))
      → All Adds filtered
      → (summarize m
          (opening_of m request filtered)
          (items_of m request available filtered)).closing_balance
        ≡ total m (λ (l : AccountMoveLine D). l.balance) filtered
  unfolding summarize opening_of items_of
  period_totals request available filtered w =
      let in_period = λ (l : AccountMoveLine D). leb request.period_start l.date in
      let before = λ (l : AccountMoveLine D). ltb_ℕ l.date request.period_start in
      let debit = λ (l : AccountMoveLine D). l.debit in
      let credit = λ (l : AccountMoveLine D). l.credit in
      let balance = λ (l : AccountMoveLine D). l.balance in
      let period = filter_by in_period filtered in
      let listed = map (item_of m available) period in
      let item_debit = λ (i : CashbookItem D). i.debit in
      let item_credit = λ (i : CashbookItem D). i.credit in
      let debits =
        total-sort_by m exact (leb_item m) item_debit listed
        ∙ total-map m exact item_debit (item_of m available) period in
      let credits =
        total-sort_by m exact (leb_item m) item_credit listed
        ∙ total-map m exact item_credit (item_of m available) period in
      let opening = total m balance (filter_by before filtered) in
      ap (λ d. m.minus (m.plus opening d) (total m item_credit (sort_by (leb_item m) listed)))
        debits
      ∙ ap (m.minus (m.plus opening (total m debit period))) credits
      ∙ ap (m.minus (m.plus opening (total m debit period)))
          (sym (exact.zero_plus (total m credit period)))
      ∙ exact.minus_plus opening (total m debit period) (zero_decimal m) (total m credit period)
      ∙ ap (λ d. m.plus d (m.minus (total m debit period) (total m credit period)))
          (exact.minus_zero opening)
      ∙ ap (m.plus opening) (total-minus period (All-filter_by Adds in_period filtered w))
      ∙ total-filter_by m exact before in_period balance filtered (λ l. ground arith)

  response_summary :
      (t : CursorText) (request : CashbookInput) (request_id : String) (available : List Journal)
      (journal_ids : List ℕ) (lines : List (AccountMoveLine D)) (response : CashbookResponse D)
      → cashbook_response m t request request_id available journal_ids lines ≡ answered response
      → let filtered = filter_by (is_selected m request journal_ids) lines in
        response.summary
        ≡ summarize m (opening_of m request filtered) (items_of m request available filtered)
  unfolding cashbook_response
  response_summary t request request_id available journal_ids lines response h =
      let filtered = filter_by (is_selected m request journal_ids) lines in
      let all_items = items_of m request available filtered in
      let report = λ (page : List (CashbookItem D) × Option String).
        summarized m request request_id (opening_of m request filtered) all_items page in
      let (offset, _, h') =
        bind_answered (cursor_offset t invalid_cursor request.cursor)
          (λ offset. page_at t outside_cursor all_items request.limit offset >>= λ page.
            answered (report page))
          response h in
      let (page, _, same) =
        bind_answered (page_at t outside_cursor all_items request.limit offset)
          (λ page. answered (report page)) response h' in
      let e : report page ≡ response = cc same in ap (λ (r : CashbookResponse D). r.summary) (sym e)

  All-first :
      (request : CashbookInput) (lines : List (AccountMoveLine D))
      → All (IsGood (line_reader m request.company_id)) lines
      → All
          (λ (l : AccountMoveLine D). (line_reader m request.company_id).is_consistent l ≡ true)
          lines
  All-first request [] w = tt
  All-first request (l ∷ lines) w = (w.0.0, All-first request lines w.1)

  All-Adds :
      (request : CashbookInput) (lines : List (AccountMoveLine D))
      → All
          (λ (l : AccountMoveLine D). (line_reader m request.company_id).is_consistent l ≡ true)
          lines
      → All Adds lines
  All-Adds request [] w = tt
  All-Adds request (l ∷ lines) w =
      (exact.eqb_eq l.balance (m.minus l.debit l.credit) (ground arith), All-Adds request lines w.1)

  read_lines_consistent :
      (adapter : Adapter D) (request : CashbookInput) (fuel : ℕ) (journal_ids : List ℕ)
      (lines : List (AccountMoveLine D))
      → read_lines m adapter request fuel journal_ids ≡ some (answered lines)
      → All
          (λ (l : AccountMoveLine D). (line_reader m request.company_id).is_consistent l ≡ true)
          lines
  unfolding read_lines
  read_lines_consistent adapter request fuel [] lines h =
      let none_read : [] ≡ lines = cc h in
      subst
        (All (λ (l : AccountMoveLine D). (line_reader m request.company_id).is_consistent l ≡ true))
        none_read tt
  read_lines_consistent adapter request fuel (i ∷ is) lines h =
      All-first request lines
        (read_all-Returned (line_reader m request.company_id)
          (λ call cursor.
            adapter.get_account_move_lines call request.company_id (line_filters request (i ∷ is))
              (record { limit = source_page_size; cursor = cursor }))
          fuel lines h).good

  -- If decimal sums are exact and the cashbook is answered, its totals were computed from journals and
  -- lines that the adapter returned and that passed the checks, the journal of each selected line is
  -- one of the bank and cash journals read, and the closing balance is the sum of the balances of all
  -- the selected lines.
  pub get_cashbook_closing :
      (adapter : Adapter D) (t : CursorText) (request : CashbookInput) (request_id : String)
      (fuel : ℕ) (response : CashbookResponse D)
      → get_cashbook m adapter t request request_id fuel ≡ some (answered response)
      → (c : Computed m adapter fuel request response) × (response.summary.closing_balance
          ≡ total m
              (λ (l : AccountMoveLine D). l.balance)
              (filter_by (is_selected m request c.journal_ids) c.lines))
  unfolding get_cashbook
  get_cashbook_closing adapter t request request_id fuel response h =
      let (available, listed, h1) =
        then_reply_answered _ (read_journals m adapter request.company_id fuel) response h in
      let (journal_ids, selected, h2) =
        then_reply_answered _ (some (select_journals request.journal_ids available)) response h1 in
      let (lines, read, h3) =
        then_reply_answered _ (read_lines m adapter request fuel journal_ids) response h2 in
      let consistent = read_lines_consistent adapter request fuel journal_ids lines read in
      let summary =
        response_summary t request request_id available journal_ids lines response (cc h3) in
      let filtered = filter_by (is_selected m request journal_ids) lines in
      let c : Computed m adapter fuel request response = record {
        available = available;
        journal_ids = journal_ids;
        lines = lines;
        listed = listed;
        read = read;
        selected = cc selected;
        consistent = consistent;
        named = All-named m request available journal_ids lines (some_injective selected);
        summary = summary;
      } in
      (
        c,
        ap (λ (s : CashbookSummary D). s.closing_balance) summary
            ∙ period_totals request available filtered (
                All-filter_by Adds (is_selected m request journal_ids) lines
                  (All-Adds request lines consistent)),
      )
