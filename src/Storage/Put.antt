-- ===== src/Storage/Put.antt =====
-- A table after a change of one row, described without the UPDATE statement of
-- src/odoo_mcp/storage/repositories.py that makes it.
use odoo_mcp.Prelude.{ℕ, false, ◌≡◌, refl, List, [], ◌∷◌, arith, any_of, ◌==◌, if◌then◌else◌}

module _ {A : Type 0} (id_of : A → ℕ) where
  -- The table in which the row with the id of `a` is `a`.
  unfoldable pub put : A → List A → List A
  put a [] = []
  put a (x ∷ xs) = (if id_of x == id_of a then a else x) ∷ put a xs

  pub put_absent :
      (a : A) (xs : List A) → any_of (λ x. id_of x == id_of a) xs ≡ false → put a xs ≡ xs
  unfolding put
  put_absent a [] h = refl
  put_absent a (x ∷ xs) h = ground (arith, put_absent a xs)
