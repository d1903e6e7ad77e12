-- ===== src/Workflows/Reconcile/Scoring.antt =====
-- `_reference`, `_round_currency_amount` and `_candidate` of
-- src/odoo_mcp/workflows/accounting/reconcile_bank.py.
use odoo_mcp.Prelude.{
  ℕ, ◌-◌, String, Bool, false, ◌&&◌, ◌||◌, not, Option, none, some, str_eq, leb, ◌==◌,
  if◌then◌else◌,
}
use odoo_mcp.Workflows.Values.{
  Decimal, RelatedRecord, Currency, Journal, AccountMoveLine, BankStatementLine,
}
use odoo_mcp.Workflows.Reconcile.{Components, Candidate, currency_or}

abbrev pub is_id : ℕ → Option RelatedRecord → Bool
is_id id none = false
is_id id (some r) = r.id == id

-- Both are given and have one id.
abbrev same_record : Option RelatedRecord → Option RelatedRecord → Bool
same_record none b = false
same_record (some a) b = is_id a.id b

abbrev is_other : Option RelatedRecord → ℕ → Bool
is_other none id = false
is_other (some r) id = not (r.id == id)

abbrev days_between : ℕ → ℕ → ℕ
days_between a b = if leb a b then b - a else a - b

-- `_reference`; `fold` is `" ".join(value.split()).casefold()`.
abbrev reference : (String → String) → Option String → String
reference fold none = fold ""
reference fold (some value) = fold value

module _ {D : Type 0} (m : Decimal D) where
  -- `_round_currency_amount`
  unfoldable pub round_currency_amount : D → Currency D → D
  round_currency_amount value currency =
      m.times (m.quantize_half_up (m.over value currency.rounding)) currency.rounding

  -- Whether it returns; otherwise `quantize` raises InvalidOperation.
  unfoldable pub is_roundable : D → Currency D → Bool
  is_roundable value currency = m.quantizes (m.over value currency.rounding)

  abbrev pub candidate_amount : Option RelatedRecord → AccountMoveLine D → D
  candidate_amount none l = l.residual
  candidate_amount (some c) l = l.residual_currency

  abbrev pub amounts_match : BankStatementLine D → AccountMoveLine D → Journal → Currency D → Bool
  amounts_match s l journal effective =
      m.eqb (round_currency_amount s.amount effective)
        (round_currency_amount (m.negate (candidate_amount journal.currency l)) effective)

  unfoldable pub components_of :
      (String → String) → BankStatementLine D → AccountMoveLine D → Components D
  components_of fold s l =
      let statement_reference = reference fold s.payment_reference in
      let days = days_between s.date l.date in
      record {
        amount = m.of_text "0.55";
        partner = if same_record s.partner l.partner then m.of_text "0.20" else m.of_text "0";
        reference =
            if not (str_eq statement_reference "")
              && str_eq statement_reference (reference fold l.label)
            then m.of_text "0.15"
            else m.of_text "0";
        date_proximity =
            if leb days 30
            then m.over (m.times (m.of_text "0.10") (m.of_int (30 - days))) (m.of_int 30)
            else m.of_text "0";
      }

  -- `sum(components.values(), _ZERO)`
  abbrev score_of : Components D → D
  score_of c =
      m.plus (m.plus (m.plus (m.plus (m.of_text "0") c.amount) c.partner) c.reference)
        c.date_proximity

  -- `_candidate`
  unfoldable pub candidate_of :
      (String → String)
      → BankStatementLine D
      → AccountMoveLine D
      → Journal
      → RelatedRecord
      → Currency D
      → Option (Candidate D)
  candidate_of fold s l journal company_currency effective =
      let id = (currency_or journal.currency company_currency).id in
      let components = components_of fold s l in
      if is_other s.foreign_currency id
      then none
      else (if not (is_id id l.currency)
          then none
          else (if l.reconciled || not (amounts_match s l journal effective)
              then none
              else (if same_record s.move (some l.move)
                  then none
                  else some
                      (record { line = l; score = score_of components; components = components }))))
