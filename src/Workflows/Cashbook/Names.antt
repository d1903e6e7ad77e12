-- ===== src/Workflows/Cashbook/Names.antt =====
-- Proofs that the journal of every selected line has a name.
use odoo_mcp.Prelude.{
  ℕ, true, ◌≡◌, refl, ◌∙◌, sym, subst, List, [], ◌∷◌, map, All, any_of, all_of, filter_by, leb,
  ◌==◌, arith, Bool-cases, inl, inr,
}
use odoo_mcp.Workflows.Values.{Decimal, Journal, AccountMoveLine, answered}
use odoo_mcp.Workflows.Sorting.{sort_by}
use odoo_mcp.Workflows.Sorting.Sorted.{any_of-sort_by, all_of-any_of}
use odoo_mcp.Workflows.Cashbook.{
  CashbookInput, id_in, is_cash, cash_ids, select_journals, is_selected,
}

any_of-map :
    (n : ℕ) (js : List Journal)
    → any_of (λ i. i == n) (map (λ (j : Journal). j.id) js) ≡ any_of (λ (j : Journal). j.id == n) js
any_of-map n [] = refl
any_of-map n (j ∷ js) = ground (arith, any_of-map n js)

-- The journals selected are bank or cash journals that are available.
select_journals-cash_ids :
    (ids : List ℕ) (available : List Journal) (journal_ids : List ℕ) (n : ℕ)
    → select_journals ids available ≡ answered journal_ids
    → id_in n journal_ids ≡ true
    → id_in n (cash_ids available) ≡ true
unfolding select_journals
select_journals-cash_ids [] available journal_ids n h chosen =
    let same : sort_by leb (cash_ids available) ≡ journal_ids = cc h in
    sym (any_of-sort_by (λ i. i == n) (cash_ids available))
    ∙ subst (λ is. id_in n is ≡ true) (sym same) chosen
select_journals-cash_ids (i ∷ is) available journal_ids n h chosen =
    let there = λ (j : ℕ). id_in j (cash_ids available) in
    elim (Bool-cases (all_of there (i ∷ is))) [
      | inr missing ↦ absurd (ground arith)
      | inl every ↦
          (let same : i ∷ is ≡ journal_ids = ground arith in
            all_of-any_of there n (i ∷ is) every
              (subst (λ is. id_in n is ≡ true) (sym same) chosen))
    ]

-- If the journals are selected, the journal of a selected line is among the bank and cash journals
-- that were read, so its name is there to be looked up.
named :
    {D : Type 0} (m : Decimal D) (request : CashbookInput) (available : List Journal)
    (journal_ids : List ℕ) (l : AccountMoveLine D)
    → select_journals request.journal_ids available ≡ answered journal_ids
    → is_selected m request journal_ids l ≡ true
    → any_of (λ (j : Journal). j.id == l.journal.id) (filter_by is_cash available) ≡ true
named m request available journal_ids l chosen selected =
    sym (any_of-map l.journal.id (filter_by is_cash available))
    ∙ select_journals-cash_ids request.journal_ids available journal_ids l.journal.id chosen
        (ground arith)

-- The same of every line that the report counts.
pub All-named :
    {D : Type 0} (m : Decimal D) (request : CashbookInput) (available : List Journal)
    (journal_ids : List ℕ) (lines : List (AccountMoveLine D))
    → select_journals request.journal_ids available ≡ answered journal_ids
    → All
        (λ (l : AccountMoveLine D).
          any_of (λ (j : Journal). j.id == l.journal.id) (filter_by is_cash available) ≡ true)
        (filter_by (is_selected m request journal_ids) lines)
All-named m request available journal_ids [] chosen = tt
All-named m request available journal_ids (l ∷ lines) chosen =
    let rest = All-named m request available journal_ids lines chosen in
    elim (Bool-cases (is_selected m request journal_ids l)) [
      | inl selected ↦ rw selected (named m request available journal_ids l chosen selected, rest)
      | inr left_out ↦ rw left_out rest
    ]
