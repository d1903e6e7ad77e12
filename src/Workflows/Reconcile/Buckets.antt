-- ===== src/Workflows/Reconcile/Buckets.antt =====
-- The dicts of lists that `_decisions` of src/odoo_mcp/workflows/accounting/reconcile_bank.py finds the
-- lines of an amount by.
pub mod Lookup
use odoo_mcp.Prelude.{Bool, List, [], ◌∷◌, ◌++◌, if◌then◌else◌}

-- A dict from keys to lists; `same` is the equality of keys.
module _ {K A : Type 0} (same : K → K → Bool) where
  -- `d.setdefault(k, []).append(a)`
  unfoldable pub add_to : K → A → List (K × List A) → List (K × List A)
  add_to k a [] = (k, a ∷ []) ∷ []
  add_to k a ((k', xs) ∷ d) =
      let rest = add_to k a d in if same k' k then (k', xs ++ a ∷ []) ∷ d else (k', xs) ∷ rest

  -- `d.get(k, [])`
  unfoldable pub items_at : K → List (K × List A) → List A
  items_at k [] = []
  items_at k ((k', xs) ∷ d) = let rest = items_at k d in if same k' k then xs else rest
