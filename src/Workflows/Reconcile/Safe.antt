-- ===== src/Workflows/Reconcile/Safe.antt =====
-- Proofs that the decisions raise no KeyError and no IndexError, and no InvalidOperation if the amounts
-- can be rounded.
use odoo_mcp.Prelude.{
  ℕ, String, Bool, true, false, ◌≡◌, ◌≢◌, refl, Option, none, some, List, [], ◌∷◌, All, filter_by,
  arith,
}
use odoo_mcp.Workflows.Values.{
  for_each, Decimal, RelatedRecord, Currency, Journal, AccountMoveLine, BankStatementLine, answered,
  crashed,
}
use odoo_mcp.Workflows.Crashes.{bind_safe}
use odoo_mcp.Workflows.Sorting.{sort_by}
use odoo_mcp.Workflows.Sorting.Sorted.{All-mono}
use odoo_mcp.Workflows.Reconcile.{Candidate, find_journal, find_currency, is_bank}
use odoo_mcp.Workflows.Reconcile.Scoring.{is_roundable, candidate_of}
use odoo_mcp.Workflows.Reconcile.Decisions.{
  Index, empty_index, index_lines, lines_round, crash_unless, subscript, eligible, collect,
  leb_scored, judge, choose, choose_among, bank_journal, decide,
}
use odoo_mcp.Workflows.Reconcile.Conflicts.{settle_all, decisions}
use odoo_mcp.Workflows.Reconcile.Decisions.Each.{for_each_safe, subscript-answered}
use odoo_mcp.Workflows.Reconcile.Complete.{bank_journal-answered}

pub subscript_safe : {A : Type 0} (o : Option A) → o ≢ none → subscript o ≢ crashed
subscript_safe none found = absurd (found refl)
subscript_safe (some a) found = λ h. cc h

bank_journal_safe : (o : Option Journal) → bank_journal o ≢ crashed
bank_journal_safe none = λ h. cc h
bank_journal_safe (some j) = λ h. ground arith

module _ {D : Type 0} (m : Decimal D) where
  judge_safe :
      (s : BankStatementLine D) (threshold best : D) (c : Candidate D) (cs : List (Candidate D))
      → judge m s threshold best (c ∷ cs) ≢ crashed
  unfolding judge
  judge_safe s threshold best c [] = λ h. ground arith
  judge_safe s threshold best c (c' ∷ cs) = λ h. cc h

  choose_safe :
      (s : BankStatementLine D) (threshold : D) (cs : List (Candidate D))
      → ((a : D) → m.eqb a a ≡ true)
      → choose m s threshold cs ≢ crashed
  unfolding choose
  choose_safe s threshold [] reflexive = λ h. cc h
  choose_safe s threshold (c ∷ cs) reflexive =
      rw (reflexive c.score)
        (judge_safe s threshold c.score c (filter_by (λ d. m.eqb d.score c.score) cs))

  -- The currencies that the decisions look up are there.
  pub record IsPriced (journals : List Journal) (company_currency : RelatedRecord)
      (currencies : List (Currency D)) : Type 0 where
    pub company : find_currency company_currency.id currencies ≢ none
    pub foreign :
        (id : ℕ) (j : Journal) (own : RelatedRecord)
        → find_journal id journals ≡ some j
        → is_bank j ≡ true
        → j.currency ≡ some own
        → find_currency own.id currencies ≢ none

  crash_unless_safe : (b : Bool) → b ≡ true → crash_unless b ≢ crashed
  crash_unless_safe true on = λ h. cc h
  crash_unless_safe false on = absurd (cc on)

  -- The amount of the statement can be rounded to each of the currencies.
  abbrev pub IsRoundable : List (Currency D) → BankStatementLine D → Type 0
  IsRoundable currencies s =
      (id : ℕ) (c : Currency D)
      → find_currency id currencies ≡ some c
      → is_roundable m (m.negate s.amount) c ≡ true

  eligible_safe :
      (company_value : Currency D) (currencies : List (Currency D)) (index : Index D)
      (s : BankStatementLine D) (o : Option RelatedRecord)
      → ((own : RelatedRecord) → o ≡ some own → find_currency own.id currencies ≢ none)
      → is_roundable m (m.negate s.amount) company_value ≡ true
      → IsRoundable currencies s
      → eligible m company_value currencies index s o ≢ crashed
  eligible_safe company_value currencies index s none priced company rounds =
      bind_safe (crash_unless (is_roundable m (m.negate s.amount) company_value)) _
        (crash_unless_safe (is_roundable m (m.negate s.amount) company_value) company)
        (λ _ same. λ h. cc h)
  eligible_safe company_value currencies index s (some own) priced company rounds =
      bind_safe (subscript (find_currency own.id currencies)) _
        (subscript_safe (find_currency own.id currencies) (priced own refl))
        (λ c same.
          bind_safe (crash_unless (is_roundable m (m.negate s.amount) c)) _
            (crash_unless_safe (is_roundable m (m.negate s.amount) c)
              (rounds own.id c (subscript-answered (find_currency own.id currencies) c same)))
            (λ _ same'. λ h. cc h))

  decide_safe :
      (fold : String → String) (threshold : D) (journals : List Journal)
      (company_currency : RelatedRecord) (company_value : Currency D)
      (currencies : List (Currency D)) (index : Index D) (s : BankStatementLine D)
      → ((a : D) → m.eqb a a ≡ true)
      → IsPriced journals company_currency currencies
      → is_roundable m (m.negate s.amount) company_value ≡ true
      → IsRoundable currencies s
      → decide m fold threshold journals company_currency
          (eligible m company_value currencies index)
          s
        ≢ crashed
  unfolding decide choose_among
  decide_safe fold threshold journals company_currency company_value currencies index s reflexive
        priced company rounds =
      bind_safe (bank_journal (find_journal s.journal.id journals)) _
        (bank_journal_safe (find_journal s.journal.id journals))
        (λ j found.
          let (listed, bank) = bank_journal-answered (find_journal s.journal.id journals) j found in
          bind_safe (eligible m company_value currencies index s j.currency) _
            (eligible_safe company_value currencies index s j.currency
              (λ own foreign. priced.foreign s.journal.id j own listed bank foreign) company rounds)
            (λ (effective, lines) same.
              choose_safe s threshold
                (sort_by (leb_scored m)
                  (collect (λ l. candidate_of m fold s l j company_currency effective) lines))
                reflexive))

  pub decisions_safe :
      (fold : String → String) (statements : List (BankStatementLine D))
      (candidates : List (AccountMoveLine D)) (threshold : D) (journals : List Journal)
      (company_currency : RelatedRecord) (currencies : List (Currency D))
      → ((a : D) → m.eqb a a ≡ true)
      → IsPriced journals company_currency currencies
      → ((company_value : Currency D)
          → find_currency company_currency.id currencies ≡ some company_value
          → lines_round m company_currency company_value currencies candidates ≡ true)
      → All (IsRoundable currencies) statements
      → decisions m fold statements candidates threshold journals company_currency currencies
        ≢ crashed
  unfolding decisions
  decisions_safe fold statements candidates threshold journals company_currency currencies reflexive
        priced lines rounds =
      bind_safe (subscript (find_currency company_currency.id currencies)) _
        (subscript_safe (find_currency company_currency.id currencies) priced.company)
        (λ company_value same.
          let valued : find_currency company_currency.id currencies ≡ some company_value =
            subscript-answered (find_currency company_currency.id currencies) company_value same in
          let index =
            index_lines m company_currency company_value currencies candidates empty_index in
          let one =
            decide m fold threshold journals company_currency
              (eligible m company_value currencies index) in
          bind_safe
            (crash_unless (lines_round m company_currency company_value currencies candidates)) _
            (crash_unless_safe (lines_round m company_currency company_value currencies candidates)
              (lines company_value valued))
            (λ _ ended.
              bind_safe (for_each one statements) (λ provisional. answered (settle_all provisional))
                (for_each_safe one statements (
                  All-mono (IsRoundable currencies) (λ s. one s ≢ crashed) statements
                    (λ s fits.
                      decide_safe fold threshold journals company_currency company_value currencies
                        index s reflexive priced (fits company_currency.id company_value valued)
                        fits)
                    rounds))
                (λ ds same'. λ h. cc h)))
