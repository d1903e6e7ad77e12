-- ===== src/Workflows/Cashbook/Report.antt =====
-- `get_cashbook` of src/odoo_mcp/workflows/accounting/cashbook.py, without the Markdown text of its
-- response.
use odoo_mcp.Prelude.{
  ℕ, String, Bool, ◌&&◌, ◌||◌, Option, none, some, List, [], ◌∷◌, map, length, filter_by,
  ltb as ltb_ℕ, leb, ◌==◌,
}
use odoo_mcp.Workflows.Values.{
  Decimal, id_of_related, name_of_related, Journal, AccountMoveLine, Reply, answered, ◌>>=◌,
  then_reply,
}
use odoo_mcp.Workflows.Adapter.{Adapter}
use odoo_mcp.Workflows.Paging.{read_all, source_page_size}
use odoo_mcp.Workflows.Cursors.{CursorText, cursor_offset, page_at}
use odoo_mcp.Workflows.Sorting.{sort_by}
use odoo_mcp.Workflows.Cashbook.{
  journal_reader, CashbookInput, CashbookItem, CashbookSummary, CashbookResponse, is_cash,
  select_journals, line_filters, journal_name, invalid_cursor, outside_cursor, zero_decimal,
  line_reader, is_selected,
}

module _ {D : Type 0} (m : Decimal D) where
  -- Python's `sum(values, start)`.
  unfoldable pub sum_from {ℓ} : {A : Type ℓ} → (A → D) → D → List A → D
  sum_from f acc [] = acc
  sum_from f acc (x ∷ xs) = sum_from f (m.plus acc (f x)) xs

  abbrev pub item_of : List Journal → AccountMoveLine D → CashbookItem D
  item_of available l = record {
    line_id = l.id;
    move_id = l.move.id;
    journal_id = l.journal.id;
    journal_name = journal_name l.journal.id (filter_by is_cash available);
    date = l.date;
    partner_id = id_of_related l.partner;
    partner_name = name_of_related l.partner;
    reference = l.label;
    currency_id = none;
    currency_name = "Company currency";
    debit = l.debit;
    credit = l.credit;
    amount = l.balance;
  }

  -- The order of the keys (date, move_id, line_id).
  abbrev pub leb_item : CashbookItem D → CashbookItem D → Bool
  leb_item a b =
      ltb_ℕ a.date b.date
      || (a.date == b.date
          && (ltb_ℕ a.move_id b.move_id || (a.move_id == b.move_id && leb a.line_id b.line_id)))

  unfoldable pub opening_of : CashbookInput → List (AccountMoveLine D) → D
  opening_of request filtered =
      sum_from (λ (l : AccountMoveLine D). l.balance) (zero_decimal m)
        (filter_by (λ l. ltb_ℕ l.date request.period_start) filtered)

  unfoldable pub items_of :
      CashbookInput → List Journal → List (AccountMoveLine D) → List (CashbookItem D)
  items_of request available filtered =
      sort_by leb_item
        (map (item_of available) (filter_by (λ l. leb request.period_start l.date) filtered))

  unfoldable pub summarize : D → List (CashbookItem D) → CashbookSummary D
  summarize opening all_items =
      let debit = sum_from (λ (i : CashbookItem D). i.debit) (zero_decimal m) all_items in
      let credit = sum_from (λ (i : CashbookItem D). i.credit) (zero_decimal m) all_items in
      record {
        transaction_count = length all_items;
        opening_balance = opening;
        total_debit = debit;
        total_credit = credit;
        closing_balance = m.minus (m.plus opening debit) credit;
      }

  abbrev pub summarized :
      CashbookInput
      → String
      → D
      → List (CashbookItem D)
      → List (CashbookItem D) × Option String
      → CashbookResponse D
  summarized request request_id opening all_items (items, next) = record {
    request_id = request_id;
    company_id = request.company_id;
    period_start = request.period_start;
    period_end = request.period_end;
    items = items;
    next_cursor = next;
    summary = summarize opening all_items;
  }

  -- The report, once the journals and the lines are read.
  unfoldable pub cashbook_response :
      CursorText
      → CashbookInput
      → String
      → List Journal
      → List ℕ
      → List (AccountMoveLine D)
      → Reply (CashbookResponse D)
  cashbook_response t request request_id available journal_ids lines =
      let filtered = filter_by (is_selected m request journal_ids) lines in
      let all_items = items_of request available filtered in
      cursor_offset t invalid_cursor request.cursor >>= λ offset.
      page_at t outside_cursor all_items request.limit offset >>= λ page.
      answered (summarized request request_id (opening_of request filtered) all_items page)

  -- `_lines` with the filters of the journals selected; no journals, no lines.
  unfoldable pub read_lines :
      Adapter D → CashbookInput → ℕ → List ℕ → Option (Reply (List (AccountMoveLine D)))
  read_lines adapter request fuel [] = some (answered [])
  read_lines adapter request fuel (i ∷ is) =
      read_all (line_reader m request.company_id)
        (λ call cursor.
          adapter.get_account_move_lines call request.company_id (line_filters request (i ∷ is))
            (record { limit = source_page_size; cursor = cursor }))
        fuel

  unfoldable pub read_journals : Adapter D → ℕ → ℕ → Option (Reply (List Journal))
  read_journals adapter company_id fuel =
      read_all (journal_reader company_id)
        (λ call cursor.
          adapter.get_journals call company_id
            (record { limit = source_page_size; cursor = cursor }))
        fuel

  -- `get_cashbook`, on fuel for each of its two loops.
  unfoldable pub get_cashbook :
      Adapter D → CursorText → CashbookInput → String → ℕ → Option (Reply (CashbookResponse D))
  get_cashbook adapter t request request_id fuel =
      then_reply
        (λ (available : List Journal).
          then_reply
            (λ (journal_ids : List ℕ).
              then_reply
                (λ lines. some (cashbook_response t request request_id available journal_ids lines))
                (read_lines adapter request fuel journal_ids))
            (some (select_journals request.journal_ids available)))
        (read_journals adapter request.company_id fuel)
