-- ===== src/Workflows/Reconcile/Buckets/Lookup.antt =====
-- Proofs about the dicts of lists.
use odoo_mcp.Prelude.{
  Bool, true, false, ◌≡◌, refl, sym, ◌∙◌, List, [], ◌∷◌, ◌++◌, if◌then◌else◌, arith, Bool-cases,
  inl, inr,
}
use odoo_mcp.Workflows.Reconcile.Buckets.{add_to, items_at}

-- The equality of keys is an equivalence.
pub record IsEquality {K : Type 0} (same : K → K → Bool) : Type 0 where
  pub reflexive : (k : K) → same k k ≡ true
  pub symmetric : (k l : K) → same k l ≡ same l k
  pub transitive : (k l n : K) → same k l ≡ true → same k n ≡ same l n

module _ {K A : Type 0} (same : K → K → Bool) (equality : IsEquality same) where
  pub items_at-add_to :
      (k n : K) (a : A) (d : List (K × List A))
      → items_at same n (add_to same k a d)
        ≡ (if same k n then items_at same n d ++ a ∷ [] else items_at same n d)
  unfolding add_to items_at
  items_at-add_to k n a [] = refl
  items_at-add_to k n a ((k', xs) ∷ d) = elim (Bool-cases (same k' k)) [
    | inl here ↦ (let e : same k' n ≡ same k n = equality.transitive k' k n here in ground arith)
    | inr apart ↦ elim (Bool-cases (same k' n)) [
      | inl at_n ↦
          (let e : same k n ≡ false =
              equality.symmetric k n ∙ sym (equality.transitive k' n k at_n) ∙ apart in
            ground arith)
      | inr off ↦ ground (arith, items_at-add_to k n a d)
    ]
  ]
