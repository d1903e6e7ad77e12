-- ===== src/Workflows/Sorting.antt =====
-- Python's stable `sort` with a key, as insertion by a Boolean order on the keys.
pub mod Sorted
use odoo_mcp.Prelude.{ℕ, Bool, true, false, List, [], ◌∷◌, if◌then◌else◌}

module _ {A : Type 0} (leb_key : A → A → Bool) where
  -- An item goes before the first one that its key does not exceed, so that equal keys keep their
  -- order.
  unfoldable pub insert_sorted : A → List A → List A
  insert_sorted a [] = a ∷ []
  insert_sorted a (x ∷ xs) =
      let rest = insert_sorted a xs in if leb_key a x then a ∷ x ∷ xs else x ∷ rest

  unfoldable pub sort_by : List A → List A
  sort_by [] = []
  sort_by (x ∷ xs) = insert_sorted x (sort_by xs)
