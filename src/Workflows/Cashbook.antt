-- ===== src/Workflows/Cashbook.antt =====
-- The data and the sources of src/odoo_mcp/workflows/accounting/cashbook.py: what it reads, and which
-- journals and lines it selects.
pub mod Report
pub mod Names
pub mod Sums
pub mod Balance
use odoo_mcp.Prelude.{
  ℕ, String, Bool, true, false, ◌&&◌, ◌||◌, not, Option, none, some, List, [], ◌∷◌, map, length,
  any_of, all_of, filter_by, str_eq, leb, ◌==◌, if◌then◌else◌,
}
use odoo_mcp.Errors.{OdooMcpError, odoo_api_error, journal_not_found, invalid_input}
use odoo_mcp.Workflows.Values.{
  Decimal, RelatedRecord, id_of_related, name_of_related, Journal, AccountMoveLine, RecordPage,
  Reply, answered, refused, ◌>>=◌, ◌>>◌, refuse_if, then_reply,
}
use odoo_mcp.Workflows.Adapter.{FilterClause, text, day, ids, Adapter}
use odoo_mcp.Workflows.Paging.{Reader, read_all, source_page_size}
use odoo_mcp.Workflows.Cursors.{CursorText, cursor_offset, page_at}
use odoo_mcp.Workflows.Sorting.{sort_by}

-- `_source_error`
abbrev pub source_error : String → OdooMcpError
source_error message = record {
  code = odoo_api_error;
  safe_message = message;
  remediation_hint = "Check Odoo record access and accounting data, then retry.";
}

-- What `_journals` checks and says.
abbrev pub journal_reader : ℕ → Reader Journal
journal_reader company_id = record {
  id_of = λ j. j.id;
  is_consistent = λ j. j.company_id == company_id;
  is_kept = λ j. true;
  oversized = source_error "Odoo returned an oversized cashbook journal page.";
  inconsistent = source_error "Odoo returned inconsistent cashbook journal data.";
  out_of_bound = source_error "The cashbook exceeds the safe processing bound.";
  bad_cursor = source_error "Odoo returned an invalid cashbook journal page.";
}

pub record CashbookInput : Type 0 where
  pub company_id : ℕ
  pub period_start : ℕ
  pub period_end : ℕ
  pub journal_ids : List ℕ
  pub partner_ids : List ℕ
  pub limit : ℕ
  pub cursor : Option String

pub record CashbookItem (D : Type 0) : Type 0 where
  pub line_id : ℕ
  pub move_id : ℕ
  pub journal_id : ℕ
  pub journal_name : String
  pub date : ℕ
  pub partner_id : Option ℕ
  pub partner_name : Option String
  pub reference : Option String
  pub currency_id : Option ℕ
  pub currency_name : String
  pub debit : D
  pub credit : D
  pub amount : D

pub record CashbookSummary (D : Type 0) : Type 0 where
  pub transaction_count : ℕ
  pub opening_balance : D
  pub total_debit : D
  pub total_credit : D
  pub closing_balance : D

pub record CashbookResponse (D : Type 0) : Type 0 where
  pub request_id : String
  pub company_id : ℕ
  pub period_start : ℕ
  pub period_end : ℕ
  pub items : List (CashbookItem D)
  pub next_cursor : Option String
  pub summary : CashbookSummary D

abbrev pub id_in : ℕ → List ℕ → Bool
id_in i items = any_of (λ j. j == i) items

abbrev pub is_cash : Journal → Bool
is_cash j = str_eq j.journal_type "bank" || str_eq j.journal_type "cash"

abbrev pub cash_ids : List Journal → List ℕ
cash_ids available = map (λ (j : Journal). j.id) (filter_by is_cash available)

-- The journals that the report is about, or the error that one of those asked for is not there.
unfoldable pub select_journals : List ℕ → List Journal → Reply (List ℕ)
select_journals [] available = answered (sort_by leb (cash_ids available))
select_journals (i ∷ is) available = do
  refuse_if (not (all_of (λ j. id_in j (cash_ids available)) (i ∷ is))) (record {
    code = journal_not_found;
    safe_message = "One or more requested cash or bank journals are unavailable.";
    remediation_hint = "Use cash or bank journal IDs available to the authorized company.";
  })
  answered (i ∷ is)

abbrev is_empty {ℓ} : {A : Type ℓ} → List A → Bool
is_empty [] = true
is_empty (x ∷ xs) = false

abbrev pub line_filters : CashbookInput → List ℕ → List FilterClause
line_filters request journal_ids =
    record { field = "move_id.state"; operator = "="; value = text "posted" }
    ∷ record { field = "date"; operator = "<="; value = day request.period_end }
    ∷ record { field = "journal_id"; operator = "in"; value = ids journal_ids }
    ∷ record { field = "account_id.account_type"; operator = "="; value = text "asset_cash" }
    ∷ (if is_empty request.partner_ids
        then []
        else record { field = "partner_id"; operator = "in"; value = ids request.partner_ids } ∷ [])

abbrev partner_in : List ℕ → Option RelatedRecord → Bool
partner_in partner_ids none = false
partner_in partner_ids (some p) = id_in p.id partner_ids

-- The name of the journal of an id: `cash_journals[id].name`, where the source would raise KeyError if
-- none had it and this is empty.
abbrev pub journal_name : ℕ → List Journal → String
journal_name id [] = ""
journal_name id (j ∷ js) = if j.id == id then j.name else journal_name id js

abbrev pub invalid_cursor : OdooMcpError
invalid_cursor = record {
  code = invalid_input;
  safe_message = "The pagination cursor is invalid.";
  remediation_hint = "Restart the cashbook without a cursor.";
}

abbrev pub outside_cursor : OdooMcpError
outside_cursor = record {
  code = invalid_input;
  safe_message = "The pagination cursor is outside this cashbook.";
  remediation_hint = "Restart the cashbook without a cursor.";
}

module _ {D : Type 0} (m : Decimal D) where
  abbrev pub zero_decimal : D
  zero_decimal = m.of_text "0"

  -- What `_lines` checks and says.
  abbrev pub line_reader : ℕ → Reader (AccountMoveLine D)
  line_reader company_id = record {
    id_of = λ l. l.id;
    is_consistent = λ l.
        l.company_id == company_id
        && (not (m.ltb l.debit zero_decimal)
            && (not (m.ltb l.credit zero_decimal) && m.eqb l.balance (m.minus l.debit l.credit)));
    is_kept = λ l. true;
    oversized = source_error "Odoo returned an oversized cashbook line page.";
    inconsistent = source_error "Odoo returned inconsistent cashbook line data.";
    out_of_bound = source_error "The cashbook exceeds the safe processing bound.";
    bad_cursor = source_error "Odoo returned an invalid cashbook line page.";
  }

  -- The lines that the report counts, whatever the adapter has filtered.
  abbrev pub is_selected : CashbookInput → List ℕ → AccountMoveLine D → Bool
  is_selected request journal_ids l =
      id_in l.journal.id journal_ids
      && (leb l.date request.period_end
          && (is_empty request.partner_ids || partner_in request.partner_ids l.partner))
