-- ===== src/Workflows/Reconcile/Currencies.antt =====
-- Proofs that the currencies that a report reads are all that its decisions look up.
use odoo_mcp.Prelude.{
  ℕ, Bool, true, ◌||◌, ◌≡◌, ◌≢◌, refl, subst, ap, ◌∙◌, none, some, List, [], ◌∷◌, ◌++◌, length,
  any_of, all_of, ltb, ◌==◌, arith, inl, inr, Bool-cases,
}
use odoo_mcp.Workflows.Values.{
  RelatedRecord, Currency, Journal, RecordPage, answered, crashed, refuse_if, bind_answered,
}
use odoo_mcp.Workflows.Adapter.{PageRequest, Adapter}
use odoo_mcp.Workflows.Sorting.Sorted.{any_of-sort_by, all_of-any_of}
use odoo_mcp.Workflows.Crashes.{bind_safe, refuse_if_safe}
use odoo_mcp.Workflows.Reconcile.{
  find_journal, find_currency, is_bank, currency_ids_of, report_currency_ids, sorted_set,
  checked_currencies, read_currencies, max_source_currencies, source_error, has_currency,
}

any_of-append : (p : ℕ → Bool) (xs ys : List ℕ) → any_of p (xs ++ ys) ≡ (any_of p xs || any_of p ys)
any_of-append p [] ys = refl
any_of-append p (x ∷ xs) ys = ground (arith, any_of-append p xs ys)

any_of-sorted_set :
    (n : ℕ) (xs : List ℕ) → any_of (λ i. i == n) (sorted_set xs) ≡ any_of (λ i. i == n) xs
unfolding sorted_set
any_of-sorted_set n [] = refl
any_of-sorted_set n (i ∷ is) =
    let rest = any_of-sorted_set n is in
    elim (Bool-cases (any_of (λ j. j == i) (sorted_set is))) [
      | inl known ↦ rw known (elim (Bool-cases (i == n)) [
        | inl same ↦
            (let is_n : i ≡ n = ground arith in
              let known' : any_of (λ j. j == n) (sorted_set is) ≡ true = rw is_n at known in
              rw (same, known'))
        | inr other ↦ rw other rest
      ])
      | inr new ↦
          rw new (any_of-sort_by (λ j. j == n) (i ∷ sorted_set is) ∙ ap (λ b. i == n || b) rest)
    ]

pub company_currency_requested :
    (company_currency : RelatedRecord) (journals : List Journal)
    → any_of (λ i. i == company_currency.id) (report_currency_ids company_currency journals) ≡ true
unfolding report_currency_ids
company_currency_requested company_currency [] = ground arith
company_currency_requested company_currency (j ∷ js) =
    let rest = company_currency_requested company_currency js in
    ground (
      arith,
      rest,
      any_of-append (λ i. i == company_currency.id) (currency_ids_of j.currency)
          (report_currency_ids company_currency js),
    )

pub journal_currency_requested :
    (company_currency : RelatedRecord) (journals : List Journal) (id : ℕ) (j : Journal)
    (own : RelatedRecord)
    → find_journal id journals ≡ some j
    → is_bank j ≡ true
    → j.currency ≡ some own
    → any_of (λ i. i == own.id) (report_currency_ids company_currency journals) ≡ true
unfolding report_currency_ids
journal_currency_requested company_currency [] id j own found bank foreign = absurd (cc found)
journal_currency_requested company_currency (k ∷ ks) id j own found bank foreign =
    let more =
      any_of-append (λ i. i == own.id) (currency_ids_of k.currency)
        (report_currency_ids company_currency ks) in
    elim (Bool-cases (k.id == id)) [
      | inl here ↦
          (let is_j : some k ≡ some j = rw here at found in
            let same : k ≡ j = cc is_j in
            let is_bank' : is_bank k ≡ true = rw same bank in
            let foreign' : k.currency ≡ some own = rw same foreign in
            let own_first : any_of (λ i. i == own.id) (currency_ids_of k.currency) ≡ true =
              rw foreign' (ground arith) in
            rw is_bank' (ground (arith, more, own_first)))
      | inr later ↦
          (let rest =
              journal_currency_requested company_currency ks id j own (rw later at found) bank
                foreign in
            ground (arith, more, rest))
    ]

module _ {D : Type 0} where
  find_has :
      (items : List (Currency D)) (n : ℕ)
      → has_currency items n ≡ true
      → find_currency n items ≢ none
  find_has [] n has = absurd (cc has)
  find_has (c ∷ items) n has = λ h. ground (arith, find_has items n)

  checked_currencies_all :
      (requested : List ℕ) (page : RecordPage (Currency D)) (items : List (Currency D)) (n : ℕ)
      → checked_currencies requested page ≡ answered items
      → any_of (λ i. i == n) requested ≡ true
      → find_currency n items ≢ none
  unfolding checked_currencies
  checked_currencies_all requested page items n h asked =
      let same : page.items ≡ items = ground arith in
      let every : all_of (has_currency page.items) requested ≡ true = ground arith in
      subst (λ is. find_currency n is ≢ none) same
        (find_has page.items n (all_of-any_of (has_currency page.items) n requested every asked))

  -- What is read holds every currency that was asked for.
  pub read_currencies_all :
      (adapter : Adapter D) (company_id : ℕ) (currency_ids : List ℕ) (items : List (Currency D))
      (n : ℕ)
      → read_currencies adapter company_id currency_ids ≡ answered items
      → any_of (λ i. i == n) currency_ids ≡ true
      → find_currency n items ≢ none
  unfolding read_currencies
  read_currencies_all adapter company_id currency_ids items n h asked =
      let requested = sorted_set currency_ids in
      let (page, _, checked) = bind_answered _ (checked_currencies requested) items h in
      checked_currencies_all requested page items n checked
        (any_of-sorted_set n currency_ids ∙ asked)

  checked_currencies_safe :
      (requested : List ℕ) (page : RecordPage (Currency D))
      → checked_currencies requested page ≢ crashed
  unfolding checked_currencies
  checked_currencies_safe requested page = λ h. ground arith

  pub read_currencies_safe :
      (adapter : Adapter D) (company_id : ℕ) (currency_ids : List ℕ)
      → ((page : PageRequest)
          → adapter.get_currencies 0 company_id (sorted_set currency_ids) page ≢ crashed)
      → read_currencies adapter company_id currency_ids ≢ crashed
  unfolding read_currencies
  read_currencies_safe adapter company_id currency_ids safe =
      let requested = sorted_set currency_ids in
      bind_safe _ (checked_currencies requested)
        (bind_safe
          (refuse_if (length requested == 0 || ltb max_source_currencies (length requested))
            (source_error "Odoo returned an invalid reconciliation currency set."))
          _ (refuse_if_safe _ _) (λ u same. safe _))
        (λ page same. checked_currencies_safe requested page)
