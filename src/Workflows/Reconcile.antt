-- ===== src/Workflows/Reconcile.antt =====
-- The sources of src/odoo_mcp/workflows/accounting/reconcile_bank.py: its data, and what it reads and
-- checks before it matches.
pub mod Scoring
pub mod Buckets
pub mod Decisions
pub mod Conflicts
pub mod Reports
pub mod Proposal
pub mod Currencies
pub mod Complete
pub mod Safe
pub mod Best
pub mod Justified
pub mod Unmatched
use odoo_mcp.Prelude.{
  ℕ, String, Bool, true, false, ◌&&◌, ◌||◌, not, Option, none, some, List, [], ◌∷◌, ◌++◌, map,
  length, any_of, all_of, filter_by, str_eq, ltb, leb, ◌==◌, if◌then◌else◌,
}
use odoo_mcp.Errors.{OdooMcpError, odoo_api_error}
use odoo_mcp.Workflows.Values.{
  RelatedRecord, Currency, Journal, AccountMoveLine, BankStatementLine, RecordPage, Reply, answered,
  refused, crashed, ◌>>=◌, ◌>>◌, refuse_if,
}
use odoo_mcp.Workflows.Adapter.{FilterClause, text, flag, DatePeriod, Adapter}
use odoo_mcp.Workflows.Paging.{Reader, read_all, source_page_size}
use odoo_mcp.Workflows.Sorting.{sort_by}

pub data UnmatchedReason : Type 0 where
  no_eligible_candidate below_confidence_threshold : UnmatchedReason
  ambiguous_best_match candidate_conflict : UnmatchedReason

-- `_Candidate.components`, a dict with these four keys.
pub record Components (D : Type 0) : Type 0 where
  pub amount : D
  pub partner : D
  pub reference : D
  pub date_proximity : D

pub record Candidate (D : Type 0) : Type 0 where
  pub line : AccountMoveLine D
  pub score : D
  pub components : Components D

pub record Decision (D : Type 0) : Type 0 where
  pub statement : BankStatementLine D
  pub candidate : Option (Candidate D)
  pub best_score : Option D
  pub reason : Option UnmatchedReason

-- `_source_error`
abbrev pub source_error : String → OdooMcpError
source_error message = record {
  code = odoo_api_error;
  safe_message = message;
  remediation_hint = "Check Odoo compatibility and accounting access, then retry.";
}

-- `journal.currency or company_currency`
abbrev pub currency_or : Option RelatedRecord → RelatedRecord → RelatedRecord
currency_or none company_currency = company_currency
currency_or (some c) company_currency = c

-- A dict of journals under their ids.
abbrev pub find_journal : ℕ → List Journal → Option Journal
find_journal id [] = none
find_journal id (j ∷ js) = let rest = find_journal id js in if j.id == id then some j else rest

abbrev pub is_bank : Journal → Bool
is_bank j = str_eq j.journal_type "bank" || str_eq j.journal_type "cash"

-- What `_journals` checks and says.
abbrev pub journal_reader : ℕ → Reader Journal
journal_reader company_id = record {
  id_of = λ j. j.id;
  is_consistent = λ j. j.company_id == company_id;
  is_kept = λ j. true;
  oversized = source_error "Odoo returned an oversized reconciliation journal page.";
  inconsistent = source_error "Odoo returned inconsistent reconciliation journal data.";
  out_of_bound = source_error "The reconciliation journals exceed the safe processing bound.";
  bad_cursor = source_error "Odoo returned an invalid reconciliation journal page.";
}

abbrev in_journal : Option ℕ → ℕ → Bool
in_journal none id = true
in_journal (some journal_id) id = id == journal_id

abbrev candidate_filters : List FilterClause
candidate_filters =
    record { field = "move_id.state"; operator = "="; value = text "posted" }
    ∷ record { field = "reconciled"; operator = "="; value = flag false }
    ∷ []

-- `_MAX_SOURCE_CURRENCIES`
unfoldable pub max_source_currencies : ℕ
max_source_currencies = 500

-- `sorted` of a set: each id once.
unfoldable pub sorted_set : List ℕ → List ℕ
sorted_set [] = []
sorted_set (i ∷ is) =
    let rest = sorted_set is in if any_of (λ j. j == i) rest then rest else sort_by leb (i ∷ rest)

abbrev is_partial : Option String → ℕ → ℕ → Bool
is_partial none items requested = not (items == requested)
is_partial (some c) items requested = true

abbrev pub currency_ids_of : Option RelatedRecord → List ℕ
currency_ids_of none = []
currency_ids_of (some c) = c.id ∷ []

-- The currencies that both reports ask for: the company's, and those of the bank and cash journals.
unfoldable pub report_currency_ids : RelatedRecord → List Journal → List ℕ
report_currency_ids company_currency [] = company_currency.id ∷ []
report_currency_ids company_currency (j ∷ js) =
    let rest = report_currency_ids company_currency js in
    if is_bank j then currency_ids_of j.currency ++ rest else rest

abbrev all_distinct : List ℕ → Bool
all_distinct [] = true
all_distinct (i ∷ is) = not (any_of (λ j. j == i) is) && all_distinct is

module _ {D : Type 0} where
  -- A dict of currencies under their ids.
  abbrev pub find_currency : ℕ → List (Currency D) → Option (Currency D)
  find_currency id [] = none
  find_currency id (c ∷ cs) = let rest = find_currency id cs in if c.id == id then some c else rest

  -- What `_statement_lines` checks and says.
  abbrev pub statement_reader : ℕ → DatePeriod → Option ℕ → Reader (BankStatementLine D)
  statement_reader company_id period journal_id = record {
    id_of = λ s. s.id;
    is_consistent = λ s.
        s.company_id == company_id
        && (leb period.start s.date
            && (leb s.date period.end && in_journal journal_id s.journal.id));
    is_kept = λ s. true;
    oversized = source_error "Odoo returned an oversized bank statement page.";
    inconsistent = source_error "Odoo returned inconsistent bank statement data.";
    out_of_bound = source_error "The reconciliation input exceeds the safe processing bound.";
    bad_cursor = source_error "Odoo returned an invalid bank statement page.";
  }

  -- What `_candidate_lines` checks, keeps and says.
  abbrev pub candidate_reader : ℕ → Reader (AccountMoveLine D)
  candidate_reader company_id = record {
    id_of = λ l. l.id;
    is_consistent = λ l. l.company_id == company_id;
    is_kept = λ l. not l.reconciled;
    oversized = source_error "Odoo returned an oversized reconciliation candidate page.";
    inconsistent = source_error "Odoo returned inconsistent reconciliation candidate data.";
    out_of_bound = source_error "The reconciliation candidates exceed the safe processing bound.";
    bad_cursor = source_error "Odoo returned an invalid reconciliation candidate page.";
  }

  unfoldable pub statement_lines :
      Adapter D → ℕ → ℕ → DatePeriod → Option ℕ → Option (Reply (List (BankStatementLine D)))
  statement_lines adapter fuel company_id period journal_id =
      read_all (statement_reader company_id period journal_id)
        (λ call cursor.
          adapter.get_bank_statement_lines call company_id period journal_id
            (record { limit = source_page_size; cursor = cursor }))
        fuel

  unfoldable pub candidate_lines : Adapter D → ℕ → ℕ → Option (Reply (List (AccountMoveLine D)))
  candidate_lines adapter fuel company_id =
      read_all (candidate_reader company_id)
        (λ call cursor.
          adapter.get_account_move_lines call company_id candidate_filters
            (record { limit = source_page_size; cursor = cursor }))
        fuel

  unfoldable pub read_journals : Adapter D → ℕ → ℕ → Option (Reply (List Journal))
  read_journals adapter fuel company_id =
      read_all (journal_reader company_id)
        (λ call cursor.
          adapter.get_journals call company_id
            (record { limit = source_page_size; cursor = cursor }))
        fuel

  abbrev pub has_currency : List (Currency D) → ℕ → Bool
  has_currency items id = any_of (λ (c : Currency D). c.id == id) items

  -- The checks on the page of currencies, which becomes a dict under the ids.
  unfoldable pub checked_currencies : List ℕ → RecordPage (Currency D) → Reply (List (Currency D))
  checked_currencies requested page = do
    refuse_if (is_partial page.next_cursor (length page.items) (length requested))
        (source_error "Odoo returned incomplete reconciliation currency data.")
    refuse_if
        (not (
          all_of (has_currency page.items) requested
          && (all_of (λ (c : Currency D). any_of (λ i. i == c.id) requested) page.items
              && all_distinct (map (λ (c : Currency D). c.id) page.items))))
        (source_error "Odoo returned inconsistent reconciliation currency data.")
    answered page.items

  -- `_currencies`
  unfoldable pub read_currencies : Adapter D → ℕ → List ℕ → Reply (List (Currency D))
  read_currencies adapter company_id currency_ids =
      let requested = sorted_set currency_ids in
      refuse_if (length requested == 0 || ltb max_source_currencies (length requested))
        (source_error "Odoo returned an invalid reconciliation currency set.")
      >> adapter.get_currencies 0 company_id requested
          (record { limit = max_source_currencies; cursor = none })
      >>= checked_currencies requested
