-- ===== src/Workflows/Reconcile/Decisions.antt =====
-- `_decisions` of src/odoo_mcp/workflows/accounting/reconcile_bank.py.
pub mod Each
pub mod Indexed
pub mod Scan
use odoo_mcp.Prelude.{
  ℕ, String, Bool, true, false, ◌&&◌, ◌||◌, not, Option, none, some, List, [], ◌∷◌, filter_by, ltb,
  leb, ◌==◌, if◌then◌else◌,
}
use odoo_mcp.Workflows.Values.{
  Decimal, RelatedRecord, Currency, Journal, AccountMoveLine, BankStatementLine, Reply, answered,
  refused, crashed, ◌>>=◌,
}
use odoo_mcp.Workflows.Sorting.{sort_by}
use odoo_mcp.Workflows.Reconcile.{
  Candidate, Decision, UnmatchedReason, no_eligible_candidate, below_confidence_threshold,
  ambiguous_best_match, candidate_conflict, source_error, find_journal, find_currency, is_bank,
}
use odoo_mcp.Workflows.Reconcile.Scoring.{round_currency_amount, is_roundable, candidate_of}
use odoo_mcp.Workflows.Reconcile.Buckets.{add_to, items_at}

-- The two dicts: of the lines in the company's currency under their residual amount, and of all lines
-- under their currency and their residual amount in it.
pub record Index (D : Type 0) : Type 0 where
  pub company_candidates : List (D × List (AccountMoveLine D))
  pub currency_candidates : List ((ℕ × D) × List (AccountMoveLine D))

abbrev pub empty_index : {D : Type 0} → Index D
empty_index = record { company_candidates = []; currency_candidates = [] }

-- `[c for x in xs if (c := f(x)) is not None]`
abbrev pub cons_some {ℓ} : {A : Type ℓ} → Option A → List A → List A
cons_some none xs = xs
cons_some (some x) xs = x ∷ xs

abbrev pub collect : {A B : Type 0} → (A → Option B) → List A → List B
collect f [] = []
collect f (x ∷ xs) = cons_some (f x) (collect f xs)

-- The subscript of a dict, which raises KeyError.
abbrev pub subscript : {A : Type 0} → Option A → Reply A
subscript none = crashed
subscript (some a) = answered a

abbrev pub bank_journal : Option Journal → Reply Journal
bank_journal none = refused (source_error "Odoo returned an unavailable statement journal.")
bank_journal (some j) =
    if is_bank j
    then answered j
    else refused (source_error "Odoo returned an unavailable statement journal.")

-- What goes on only if no rounding raised.
abbrev pub crash_unless : Bool → Reply (Unit {0})
crash_unless true = answered tt
crash_unless false = crashed

module _ {D : Type 0} (m : Decimal D) where
  abbrev pub same_key : ℕ × D → ℕ × D → Bool
  same_key (i, a) (j, b) = i == j && m.eqb a b

  abbrev pub indexed_at :
      RelatedRecord
      → Currency D
      → AccountMoveLine D
      → Option RelatedRecord
      → Option (Currency D)
      → Index D
      → Index D
  indexed_at company_currency company_value l none found index = index
  indexed_at company_currency company_value l (some c) none index = index
  indexed_at company_currency company_value l (some c) (some line_currency) index = record {
    company_candidates =
        if c.id == company_currency.id
        then add_to m.eqb (round_currency_amount m l.residual company_value) l
            index.company_candidates
        else index.company_candidates;
    currency_candidates =
        add_to same_key (c.id, round_currency_amount m l.residual_currency line_currency) l
          index.currency_candidates;
  }

  -- `currencies.get(line.currency.id)` of a line that has a currency.
  abbrev pub line_currency : Option RelatedRecord → List (Currency D) → Option (Currency D)
  line_currency none currencies = none
  line_currency (some c) currencies = find_currency c.id currencies

  -- The roundings of one pass of the first loop.
  abbrev pub line_rounds :
      RelatedRecord
      → Currency D
      → AccountMoveLine D
      → Option RelatedRecord
      → Option (Currency D)
      → Bool
  line_rounds company_currency company_value l none found = true
  line_rounds company_currency company_value l (some c) none = true
  line_rounds company_currency company_value l (some c) (some line_currency) =
      (not (c.id == company_currency.id) || is_roundable m l.residual company_value)
      && is_roundable m l.residual_currency line_currency

  -- Whether the first loop ends; a rounding in it may raise InvalidOperation.
  unfoldable pub lines_round :
      RelatedRecord → Currency D → List (Currency D) → List (AccountMoveLine D) → Bool
  lines_round company_currency company_value currencies [] = true
  lines_round company_currency company_value currencies (l ∷ ls) =
      line_rounds company_currency company_value l l.currency (line_currency l.currency currencies)
      && lines_round company_currency company_value currencies ls

  -- The first loop, where it ends.
  unfoldable pub index_lines :
      RelatedRecord → Currency D → List (Currency D) → List (AccountMoveLine D) → Index D → Index D
  index_lines company_currency company_value currencies [] index = index
  index_lines company_currency company_value currencies (l ∷ ls) index =
      index_lines company_currency company_value currencies ls (
        indexed_at company_currency company_value l l.currency (line_currency l.currency currencies)
          index)

  -- The effective currency of a journal, and the lines of the opposite of the statement's amount. The
  -- roundings of `_candidate` that follow are, up to sign, of amounts that this and the first loop
  -- have rounded to the same currency, so they raise nothing that was not raised before.
  abbrev pub eligible :
      Currency D
      → List (Currency D)
      → Index D
      → BankStatementLine D
      → Option RelatedRecord
      → Reply (Currency D × List (AccountMoveLine D))
  eligible company_value currencies index s none =
      crash_unless (is_roundable m (m.negate s.amount) company_value) >>= λ _. answered (
        company_value,
        items_at m.eqb (round_currency_amount m (m.negate s.amount) company_value)
            index.company_candidates,
      )
  eligible company_value currencies index s (some c) =
      subscript (find_currency c.id currencies) >>= λ effective.
      crash_unless (is_roundable m (m.negate s.amount) effective) >>= λ _. answered (
        effective,
        items_at same_key (c.id, round_currency_amount m (m.negate s.amount) effective)
            index.currency_candidates,
      )

  -- The order of the keys (-score, line id).
  abbrev pub leb_scored : Candidate D → Candidate D → Bool
  leb_scored a b =
      m.ltb (m.negate a.score) (m.negate b.score)
      || (m.eqb (m.negate a.score) (m.negate b.score) && leb a.line.id b.line.id)

  abbrev undecided : BankStatementLine D → Option D → UnmatchedReason → Decision D
  undecided s best_score reason = record {
    statement = s;
    candidate = none;
    best_score = best_score;
    reason = some reason;
  }

  -- What is decided on the candidates of the best score.
  unfoldable pub judge : BankStatementLine D → D → D → List (Candidate D) → Reply (Decision D)
  judge s threshold best_score [] =
      if m.ltb best_score threshold
      then answered (undecided s (some best_score) below_confidence_threshold)
      else crashed
  judge s threshold best_score (c ∷ []) =
      if m.ltb best_score threshold
      then answered (undecided s (some best_score) below_confidence_threshold)
      else answered (record {
        statement = s;
        candidate = some c;
        best_score = some best_score;
        reason = none;
      })
  judge s threshold best_score (c ∷ d ∷ cs) =
      answered (undecided s (some best_score) ambiguous_best_match)

  -- What is decided on the sorted candidates.
  unfoldable pub choose : BankStatementLine D → D → List (Candidate D) → Reply (Decision D)
  choose s threshold [] = answered (undecided s none no_eligible_candidate)
  choose s threshold (c ∷ cs) =
      judge s threshold c.score (filter_by (λ d. m.eqb d.score c.score) (c ∷ cs))

  unfoldable pub choose_among :
      (String → String)
      → BankStatementLine D
      → D
      → Journal
      → RelatedRecord
      → Currency D × List (AccountMoveLine D)
      → Reply (Decision D)
  choose_among fold s threshold journal company_currency (effective, lines) = choose s threshold (
      sort_by leb_scored
        (collect (λ l. candidate_of m fold s l journal company_currency effective) lines))

  -- The body of the second loop; `lines_of` finds the effective currency and the lines to compare.
  unfoldable pub decide :
      (String → String)
      → D
      → List Journal
      → RelatedRecord
      → (BankStatementLine D → Option RelatedRecord → Reply (Currency D × List (AccountMoveLine D)))
      → BankStatementLine D
      → Reply (Decision D)
  decide fold threshold journals company_currency lines_of s =
      bank_journal (find_journal s.journal.id journals) >>= λ journal.
      lines_of s journal.currency >>= choose_among fold s threshold journal company_currency
