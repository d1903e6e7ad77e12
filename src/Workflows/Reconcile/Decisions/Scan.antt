-- ===== src/Workflows/Reconcile/Decisions/Scan.antt =====
-- Proofs that the dicts of `_decisions` find what a scan of all the candidates finds.
use odoo_mcp.Prelude.{
  ℕ, String, Bool, true, false, ◌≡◌, refl, sym, ap, ◌∙◌, Option, none, some, List, [], ◌∷◌,
  Option-cases, inl, inr,
}
use odoo_mcp.Workflows.Values.{
  for_each, Decimal, RelatedRecord, Currency, Journal, AccountMoveLine, BankStatementLine, Reply,
  answered, ◌>>=◌, bind_ext,
}
use odoo_mcp.Workflows.Sorting.{sort_by}
use odoo_mcp.Workflows.Reconcile.{Decision, find_currency, find_journal}
use odoo_mcp.Workflows.Reconcile.Scoring.{round_currency_amount, is_roundable, candidate_of}
use odoo_mcp.Workflows.Reconcile.Buckets.{items_at}
use odoo_mcp.Workflows.Reconcile.Decisions.{
  Index, empty_index, collect, subscript, same_key, line_currency, index_lines, lines_round,
  crash_unless, eligible, choose, leb_scored, bank_journal, choose_among, decide,
}
use odoo_mcp.Workflows.Reconcile.Conflicts.{settle_all, decisions}
use odoo_mcp.Workflows.Reconcile.Decisions.Indexed.{
  IsSymmetric, collect-filter_by, find_indexed, in_company, in_currency, company_step,
  currency_step, company_out, currency_out,
}

guarded :
    {A B : Type 0} (b : Bool) (x y : A) (f : A → Reply B)
    → f x ≡ f y
    → ((crash_unless b >>= λ _. answered x) >>= f) ≡ ((crash_unless b >>= λ _. answered y) >>= f)
guarded true x y f same = same
guarded false x y f same = refl

module _ {D : Type 0} (m : Decimal D) (company_currency : RelatedRecord)
    (company_value : Currency D) (currencies : List (Currency D)) where
  -- The lines to compare without the dicts: all of them, once the statement's amount is rounded.
  abbrev pub scan :
      List (AccountMoveLine D)
      → BankStatementLine D
      → Option RelatedRecord
      → Reply (Currency D × List (AccountMoveLine D))
  scan candidates s none = crash_unless (is_roundable m (m.negate s.amount) company_value) >>= λ _.
      answered (company_value, candidates)
  scan candidates s (some c) = subscript (find_currency c.id currencies) >>= λ effective.
      crash_unless (is_roundable m (m.negate s.amount) effective) >>= λ _.
      answered (effective, candidates)

  abbrev index_of : List (AccountMoveLine D) → Index D
  index_of candidates =
      index_lines m company_currency company_value currencies candidates empty_index

  company_scan :
      (fold : String → String) (threshold : D) (journal : Journal) (s : BankStatementLine D)
      (candidates : List (AccountMoveLine D))
      → IsSymmetric m
      → journal.currency ≡ none
      → find_currency company_currency.id currencies ≡ some company_value
      → (eligible m company_value currencies (index_of candidates) s none
          >>= choose_among m fold s threshold journal company_currency)
        ≡ (scan candidates s none >>= choose_among m fold s threshold journal company_currency)
  unfolding choose_among items_at
  company_scan fold threshold journal s candidates symmetric plain priced =
      let key = round_currency_amount m (m.negate s.amount) company_value in
      let found =
        find_indexed m company_currency company_value currencies
          (λ index. items_at m.eqb key index.company_candidates)
          (in_company m company_currency company_value currencies key) candidates empty_index
          (λ l index.
            company_step m company_currency company_value currencies key l l.currency
              (line_currency m l.currency currencies) index symmetric) in
      guarded (is_roundable m (m.negate s.amount) company_value)
        (company_value, items_at m.eqb key (index_of candidates).company_candidates)
        (company_value, candidates) (choose_among m fold s threshold journal company_currency)
        (ap (λ ls. choose m s threshold (sort_by (leb_scored m) ls))
          (ap (collect (λ l. candidate_of m fold s l journal company_currency company_value)) found
            ∙ collect-filter_by
                (λ l. candidate_of m fold s l journal company_currency company_value)
                (in_company m company_currency company_value currencies key) candidates
                (company_out m company_currency company_value currencies fold s journal symmetric
                  plain priced)))

  currency_scan :
      (fold : String → String) (threshold : D) (journal : Journal) (s : BankStatementLine D)
      (candidates : List (AccountMoveLine D)) (own : RelatedRecord)
      → IsSymmetric m
      → journal.currency ≡ some own
      → (eligible m company_value currencies (index_of candidates) s (some own)
          >>= choose_among m fold s threshold journal company_currency)
        ≡ (scan candidates s (some own)
            >>= choose_among m fold s threshold journal company_currency)
  unfolding choose_among items_at
  currency_scan fold threshold journal s candidates own symmetric foreign =
      elim (Option-cases (find_currency own.id currencies)) [
        | inl missing ↦ rw missing
        | inr (effective, priced) ↦
            (let key : ℕ × D = (own.id, round_currency_amount m (m.negate s.amount) effective) in
              let found =
                find_indexed m company_currency company_value currencies
                  (λ index. items_at (same_key m) key index.currency_candidates)
                  (in_currency m company_currency company_value currencies key) candidates
                  empty_index
                  (λ l index.
                    currency_step m company_currency company_value currencies key l l.currency
                      (line_currency m l.currency currencies) index symmetric) in
              rw priced (
                guarded (is_roundable m (m.negate s.amount) effective)
                  (effective, items_at (same_key m) key (index_of candidates).currency_candidates)
                  (effective, candidates) (choose_among m fold s threshold journal company_currency)
                  (ap (λ ls. choose m s threshold (sort_by (leb_scored m) ls))
                    (ap (collect (λ l. candidate_of m fold s l journal company_currency effective))
                        found
                      ∙ collect-filter_by
                          (λ l. candidate_of m fold s l journal company_currency effective)
                          (in_currency m company_currency company_value currencies key) candidates
                          (currency_out m company_currency company_value currencies fold s journal
                            own effective symmetric foreign priced)))))
      ]

  journal_scan :
      (fold : String → String) (threshold : D) (journal : Journal) (s : BankStatementLine D)
      (candidates : List (AccountMoveLine D))
      → IsSymmetric m
      → find_currency company_currency.id currencies ≡ some company_value
      → (eligible m company_value currencies (index_of candidates) s journal.currency
          >>= choose_among m fold s threshold journal company_currency)
        ≡ (scan candidates s journal.currency
            >>= choose_among m fold s threshold journal company_currency)
  journal_scan fold threshold journal s candidates symmetric priced =
      let found = λ (c : Option RelatedRecord).
        eligible m company_value currencies (index_of candidates) s c
        >>= choose_among m fold s threshold journal company_currency in
      let scanned = λ (c : Option RelatedRecord).
        scan candidates s c >>= choose_among m fold s threshold journal company_currency in
      elim (Option-cases journal.currency) [
        | inl plain ↦
            ap found plain
            ∙ company_scan fold threshold journal s candidates symmetric plain priced
            ∙ sym (ap scanned plain)
        | inr (own, foreign) ↦
            ap found foreign
            ∙ currency_scan fold threshold journal s candidates own symmetric foreign
            ∙ sym (ap scanned foreign)
      ]

  decide-scan :
      (fold : String → String) (threshold : D) (journals : List Journal) (s : BankStatementLine D)
      (candidates : List (AccountMoveLine D))
      → IsSymmetric m
      → find_currency company_currency.id currencies ≡ some company_value
      → decide m fold threshold journals company_currency
          (eligible m company_value currencies (index_of candidates))
          s
        ≡ decide m fold threshold journals company_currency (scan candidates) s
  unfolding decide
  decide-scan fold threshold journals s candidates symmetric priced =
      bind_ext (bank_journal (find_journal s.journal.id journals))
        (λ journal.
          eligible m company_value currencies (index_of candidates) s journal.currency
          >>= choose_among m fold s threshold journal company_currency)
        (λ journal.
          scan candidates s journal.currency
          >>= choose_among m fold s threshold journal company_currency)
        (λ journal. journal_scan fold threshold journal s candidates symmetric priced)

for_each_ext :
    {D : Type 0} (f g : BankStatementLine D → Reply (Decision D)) (ss : List (BankStatementLine D))
    → ((s : BankStatementLine D) → f s ≡ g s)
    → for_each f ss ≡ for_each g ss
unfolding for_each
for_each_ext f g [] same = refl
for_each_ext f g (s ∷ ss) same = rw (same s, for_each_ext f g ss same)

-- `_decisions` without the dicts: every amount of a candidate is rounded, then every statement line
-- is compared with every candidate.
abbrev pub scanned_decisions :
    {D : Type 0}
    → Decimal D
    → (String → String)
    → List (BankStatementLine D)
    → List (AccountMoveLine D)
    → D
    → List Journal
    → RelatedRecord
    → List (Currency D)
    → Reply (List (Decision D))
scanned_decisions m fold statements candidates threshold journals company_currency currencies =
    subscript (find_currency company_currency.id currencies) >>= λ company_value.
    crash_unless (lines_round m company_currency company_value currencies candidates) >>= λ _.
    for_each
      (decide m fold threshold journals company_currency
        (scan m company_currency company_value currencies candidates))
      statements
    >>= λ provisional. answered (settle_all provisional)

pub decisions-scan :
    {D : Type 0} (m : Decimal D) (fold : String → String) (statements : List (BankStatementLine D))
    (candidates : List (AccountMoveLine D)) (threshold : D) (journals : List Journal)
    (company_currency : RelatedRecord) (currencies : List (Currency D))
    → IsSymmetric m
    → decisions m fold statements candidates threshold journals company_currency currencies
      ≡ scanned_decisions m fold statements candidates threshold journals company_currency
          currencies
unfolding decisions
decisions-scan m fold statements candidates threshold journals company_currency currencies
      symmetric =
    elim (Option-cases (find_currency company_currency.id currencies)) [
      | inl missing ↦ rw missing
      | inr (company_value, priced) ↦ rw (
        priced,
        bind_ext (crash_unless (lines_round m company_currency company_value currencies candidates))
            _ _
            (λ _.
              ap (λ r. r >>= λ provisional. answered (settle_all provisional))
                (for_each_ext
                  (decide m fold threshold journals company_currency (
                    eligible m company_value currencies (
                      index_lines m company_currency company_value currencies candidates
                        empty_index)))
                  (decide m fold threshold journals company_currency
                    (scan m company_currency company_value currencies candidates))
                  statements
                  (λ s.
                    decide-scan m company_currency company_value currencies fold threshold journals
                      s candidates symmetric priced))),
      )
    ]
