-- ===== src/Workflows/Reconcile/Conflicts/Exclusive.antt =====
-- Proofs about the lines that the decisions choose.
use odoo_mcp.Prelude.{
  ℕ, ◌≤◌, ◌<◌, String, true, false, ◌≡◌, refl, subst, Option, none, some, List, [], ◌∷◌, map, ltb,
  arith, Bool-cases, inl, inr,
}
use odoo_mcp.Workflows.Values.{
  for_each, Decimal, RelatedRecord, Currency, Journal, AccountMoveLine, BankStatementLine, answered,
  bind_answered,
}
use odoo_mcp.Workflows.Reconcile.{Candidate, Decision, find_currency}
use odoo_mcp.Workflows.Reconcile.Conflicts.{
  chose, chosen_count, is_contested, settle, settle_all, decisions,
}
use odoo_mcp.Workflows.Reconcile.Decisions.{
  subscript, lines_round, crash_unless, decide, eligible, index_lines, empty_index,
}

module _ {D : Type 0} where
  -- No candidate line is chosen by two decisions.
  abbrev pub IsExclusive : List (Decision D) → Type 0
  IsExclusive ds = (id : ℕ) → chosen_count id ds ≤ 1

  uncontested :
      (provisional : List (Decision D)) (c : Option (Candidate D)) (id : ℕ)
      → is_contested provisional c ≡ false
      → chose id c ≡ true
      → chosen_count id provisional ≤ 1
  uncontested provisional none id free h = absurd (cc h)
  uncontested provisional (some c) id free h =
      let same : c.line.id ≡ id = ground arith in
      subst (λ n. chosen_count n provisional ≤ 1) same (ground arith)

  -- What is settled against the provisional decisions chooses no line more often.
  settle-chose :
      (provisional : List (Decision D)) (d : Decision D) (id : ℕ)
      → chose id (settle provisional d).candidate ≡ true
      → (chose id d.candidate ≡ true) × (chosen_count id provisional ≤ 1)
  unfolding settle
  settle-chose provisional d id h = elim (Bool-cases (is_contested provisional d.candidate)) [
    | inl contested ↦ absurd (let h' : false ≡ true = rw contested at h in cc h')
    | inr free ↦
        (let kept : chose id d.candidate ≡ true = rw free at h in
          (kept, uncontested provisional d.candidate id free kept))
  ]

  settled_count :
      (provisional ds : List (Decision D)) (id : ℕ)
      → chosen_count id (map (settle provisional) ds) ≤ chosen_count id ds
  unfolding chosen_count
  settled_count provisional [] id = omega arith
  settled_count provisional (d ∷ ds) id =
      elim (Bool-cases (chose id (settle provisional d).candidate)) [
        | inl on ↦ ground (arith, settle-chose provisional d id on, settled_count provisional ds id)
        | inr off ↦ ground (arith, settled_count provisional ds id)
      ]

  settled_none :
      (provisional ds : List (Decision D)) (id : ℕ)
      → 1 < chosen_count id provisional
      → chosen_count id (map (settle provisional) ds) ≡ 0
  unfolding chosen_count
  settled_none provisional [] id many = refl
  settled_none provisional (d ∷ ds) id many =
      elim (Bool-cases (chose id (settle provisional d).candidate)) [
        | inl on ↦ absurd (omega (arith, (settle-chose provisional d id on).1))
        | inr off ↦ ground (arith, settled_none provisional ds id many)
      ]

  settle_all-IsExclusive : (provisional : List (Decision D)) → IsExclusive (settle_all provisional)
  unfolding settle_all
  settle_all-IsExclusive provisional id = elim (Bool-cases (ltb 1 (chosen_count id provisional))) [
    | inl many ↦ ground (arith, settled_none provisional provisional id)
    | inr few ↦ ground (arith, settled_count provisional provisional id)
  ]

-- If `_decisions` returns, no candidate line is matched to two statement lines.
pub decisions-IsExclusive :
    {D : Type 0} (m : Decimal D) (fold : String → String) (statements : List (BankStatementLine D))
    (candidates : List (AccountMoveLine D)) (threshold : D) (journals : List Journal)
    (company_currency : RelatedRecord) (currencies : List (Currency D)) (ds : List (Decision D))
    → decisions m fold statements candidates threshold journals company_currency currencies
      ≡ answered ds
    → IsExclusive ds
unfolding decisions
decisions-IsExclusive m fold statements candidates threshold journals company_currency currencies ds
      h =
    let (company_value, _, h') =
      bind_answered (subscript (find_currency company_currency.id currencies)) _ ds h in
    let (_, _, h1) =
      bind_answered
        (crash_unless (lines_round m company_currency company_value currencies candidates)) _ ds
        h' in
    let (provisional, _, h'') =
      bind_answered
        (for_each
          (decide m fold threshold journals company_currency (
            eligible m company_value currencies
              (index_lines m company_currency company_value currencies candidates empty_index)))
          statements)
        (λ provisional. answered (settle_all provisional)) ds h1 in
    let same : settle_all provisional ≡ ds = cc h'' in
    subst IsExclusive same (settle_all-IsExclusive provisional)
