-- ===== src/Tests/Reports.antt =====
-- The reports on small ledgers.
use odoo_mcp.Prelude.{
  text_length, ℕ, ◌+◌, ℤ, pos, ◌-ℤ◌, ◌+ℤ◌, String, false, ◌≡◌, refl, Option, none, some, List, [],
  ◌∷◌, arith, filter_by,
}
use odoo_mcp.Workflows.Values.{Journal, AccountMoveLine, RecordPage, Reply, answered}
use odoo_mcp.Workflows.Adapter.{Adapter}
use odoo_mcp.Workflows.Paging.{
  read_items, next_turn, after_items, turn, read_pages, read_all, max_source_records,
}
use odoo_mcp.Workflows.Paging.Termination.{Progresses, read_all_ends}
use odoo_mcp.Workflows.Paging.Contents.{Returned, read_all-Returned}
use odoo_mcp.Workflows.Cursors.{cursor_offset, page_at, next_cursor}
use odoo_mcp.Workflows.Cursors.Walks.{walk, walk_all}
use odoo_mcp.Workflows.Sorting.{insert_sorted, sort_by}
use odoo_mcp.Workflows.Cashbook.{
  CashbookInput, CashbookResponse, journal_reader, is_selected, select_journals, outside_cursor,
  invalid_cursor,
}
use odoo_mcp.Workflows.Cashbook.Report.{
  sum_from, opening_of, items_of, summarize, cashbook_response, read_lines, read_journals,
  get_cashbook,
}
use odoo_mcp.Workflows.Cashbook.Balance.{Computed, get_cashbook_closing}
use odoo_mcp.Workflows.Cashbook.Sums.{total}
use odoo_mcp.Tests.Decimals.{hundredths, hundredths-IsExact, tallies, tallies-RoundTrips}

abbrev pub bank : Journal
bank = record {
  id = 7;
  name = "Bank";
  code = "BNK";
  journal_type = "bank";
  company_id = 1;
  currency = none;
}

abbrev pub line_on : ℕ → ℕ → ℤ → ℤ → AccountMoveLine ℤ
line_on id date debit credit = record {
  id = id;
  move = record { id = id + 100; name = "move" };
  journal = record { id = 7; name = "Bank" };
  partner = none;
  company_id = 1;
  currency = some (record { id = 1; name = "EUR" });
  date = date;
  label = none;
  debit = debit;
  credit = credit;
  balance = debit -ℤ credit;
  residual = pos 0 -ℤ (debit -ℤ credit);
  residual_currency = pos 0 -ℤ (debit -ℤ credit);
  reconciled = false;
}

abbrev pub single_page {ℓ} : {A : Type ℓ} → A → A
single_page a = a

-- The journals come in two pages, and the lines in one.
abbrev journal_pages : ℕ → Option String → Reply (RecordPage Journal)
journal_pages call none =
    answered (record { items = record bank { id = 6 } ∷ []; next_cursor = some "p" })
journal_pages call (some c) = answered (record { items = bank ∷ []; next_cursor = none })

abbrev ledger : Adapter ℤ
ledger = record {
  get_journals = λ call company page. journal_pages call page.cursor;
  get_account_move_lines = λ call company filters page. answered (record {
    items =
        line_on 3 12 (pos 0) (pos 30)
        ∷ line_on 2 11 (pos 70) (pos 0)
        ∷ line_on 1 5 (pos 100) (pos 0)
        ∷ [];
    next_cursor = none;
  });
  get_bank_statement_lines =
      λ call company period journal page. answered (record { items = []; next_cursor = none });
  get_currencies = λ call company ids page. answered (record { items = []; next_cursor = none });
}

abbrev march : CashbookInput
march = record {
  company_id = 1;
  period_start = 10;
  period_end = 20;
  journal_ids = 7 ∷ [];
  partner_ids = [];
  limit = 1;
  cursor = none;
}

journal_pages-Progresses : Progresses (journal_reader 1) journal_pages
journal_pages-Progresses call none page c h next = ground arith
journal_pages-Progresses call (some d) page c h next = absurd (ground arith)

read_all_ends_example :
    (reply : Reply (List Journal)) × (read_all
        (journal_reader 1)
        journal_pages
        (max_source_records + 2)
      ≡ some reply)
read_all_ends_example =
    read_all_ends (journal_reader 1) journal_pages (max_source_records + 2) journal_pages-Progresses
      (omega arith)

both_journals :
    read_all (journal_reader 1) journal_pages 2
    ≡ some (answered (record bank { id = 6 } ∷ bank ∷ []))
unfolding read_all read_pages turn after_items next_turn read_items max_source_records text_length
both_journals = refl

read_all-Returned_example : Returned (journal_reader 1) (record bank { id = 6 } ∷ bank ∷ [])
read_all-Returned_example =
    read_all-Returned (journal_reader 1) journal_pages 2 (record bank { id = 6 } ∷ bank ∷ [])
      both_journals

walk_all_example :
    walk {A = ℕ} tallies invalid_cursor outside_cursor (4 ∷ 5 ∷ 6 ∷ []) 2 4 none ≡ 4 ∷ 5 ∷ 6 ∷ []
walk_all_example =
    walk_all tallies invalid_cursor outside_cursor (4 ∷ 5 ∷ 6 ∷ []) 2 4 tallies-RoundTrips
      (omega arith) (omega arith)

abbrev march_report : CashbookResponse ℤ
march_report = record {
  request_id = "r";
  company_id = 1;
  period_start = 10;
  period_end = 20;
  items =
      record {
        line_id = 2;
        move_id = 102;
        journal_id = 7;
        journal_name = "Bank";
        date = 11;
        partner_id = none;
        partner_name = none;
        reference = none;
        currency_id = none;
        currency_name = "Company currency";
        debit = pos 70;
        credit = pos 0;
        amount = pos 70;
      }
      ∷ [];
  next_cursor = some "v1:1";
  summary = record {
    transaction_count = 2;
    opening_balance = pos 100;
    total_debit = pos 70;
    total_credit = pos 30;
    closing_balance = pos 140;
  };
}

march_run : get_cashbook hundredths ledger tallies march "r" 2 ≡ some (answered march_report)
unfolding get_cashbook read_journals read_lines cashbook_response select_journals opening_of
    items_of summarize sum_from sort_by insert_sorted cursor_offset page_at next_cursor read_all
    read_pages turn after_items next_turn read_items max_source_records ◌-ℤ◌ ◌+ℤ◌ text_length
march_run = refl

get_cashbook_closing_example :
    (c : Computed hundredths ledger 2 march march_report) × (pos 140
      ≡ total hundredths
          (λ (l : AccountMoveLine ℤ). l.balance)
          (filter_by (is_selected hundredths march c.journal_ids) c.lines))
get_cashbook_closing_example =
    get_cashbook_closing hundredths hundredths-IsExact ledger tallies march "r" 2 march_report
      march_run
