-- ===== src/Workflows/Cashbook/Sums.antt =====
-- Proofs about the sums of decimals over lists.
use odoo_mcp.Prelude.{
  Bool, true, false, not, ◌≡◌, refl, sym, ap, ◌∙◌, List, [], ◌∷◌, map, filter_by, Bool-cases, inl,
  inr,
}
use odoo_mcp.Workflows.Values.{Decimal}
use odoo_mcp.Workflows.Sorting.{insert_sorted, sort_by}
use odoo_mcp.Workflows.Cashbook.{zero_decimal}
use odoo_mcp.Workflows.Cashbook.Report.{sum_from}

-- The arithmetic of sums that stay within the precision of the context, where it is exact.
pub record IsExact {D : Type 0} (m : Decimal D) : Type 0 where
  pub zero_plus : (a : D) → m.plus (m.of_text "0") a ≡ a
  pub plus_comm : (a b : D) → m.plus a b ≡ m.plus b a
  pub plus_assoc : (a b c : D) → m.plus (m.plus a b) c ≡ m.plus a (m.plus b c)
  pub minus_plus :
      (a b c d : D) → m.minus (m.plus a b) (m.plus c d) ≡ m.plus (m.minus a c) (m.minus b d)
  pub minus_zero : (a : D) → m.minus a (m.of_text "0") ≡ a
  pub eqb_eq : (a b : D) → m.eqb a b ≡ true → a ≡ b

module _ {D : Type 0} (m : Decimal D) where
  -- The sum of a value over the items of a list.
  abbrev pub total {ℓ} : {A : Type ℓ} → (A → D) → List A → D
  total f xs = sum_from m f (zero_decimal m) xs

module _ {D : Type 0} (m : Decimal D) (exact : IsExact m) where
  sum_from-total {ℓ} :
      {A : Type ℓ} (f : A → D) (acc : D) (xs : List A)
      → sum_from m f acc xs ≡ m.plus acc (total m f xs)
  unfolding sum_from
  sum_from-total f acc [] = sym (exact.zero_plus acc) ∙ exact.plus_comm (zero_decimal m) acc
  sum_from-total f acc (x ∷ xs) =
      sum_from-total f (m.plus acc (f x)) xs
      ∙ exact.plus_assoc acc (f x) (total m f xs)
      ∙ ap (m.plus acc) (
          sym (
            sum_from-total f (m.plus (zero_decimal m) (f x)) xs
            ∙ ap (λ d. m.plus d (total m f xs)) (exact.zero_plus (f x))))

  pub total-cons {ℓ} :
      {A : Type ℓ} (f : A → D) (x : A) (xs : List A)
      → total m f (x ∷ xs) ≡ m.plus (f x) (total m f xs)
  unfolding sum_from
  total-cons f x xs =
      sum_from-total f (m.plus (zero_decimal m) (f x)) xs
      ∙ ap (λ d. m.plus d (total m f xs)) (exact.zero_plus (f x))

  swap : (a b c : D) → m.plus a (m.plus b c) ≡ m.plus b (m.plus a c)
  swap a b c =
      sym (exact.plus_assoc a b c)
      ∙ ap (λ d. m.plus d c) (exact.plus_comm a b)
      ∙ exact.plus_assoc b a c

  pub total-insert_sorted :
      {A : Type 0} (leb_key : A → A → Bool) (f : A → D) (a : A) (xs : List A)
      → total m f (insert_sorted leb_key a xs) ≡ m.plus (f a) (total m f xs)
  unfolding insert_sorted
  total-insert_sorted leb_key f a [] = total-cons f a []
  total-insert_sorted leb_key f a (x ∷ xs) = elim (Bool-cases (leb_key a x)) [
    | inl here ↦ rw here (total-cons f a (x ∷ xs))
    | inr later ↦ rw later (
        total-cons f x (insert_sorted leb_key a xs)
        ∙ ap (m.plus (f x)) (total-insert_sorted leb_key f a xs)
        ∙ swap (f x) (f a) (total m f xs)
        ∙ ap (m.plus (f a)) (sym (total-cons f x xs)))
  ]

  pub total-sort_by :
      {A : Type 0} (leb_key : A → A → Bool) (f : A → D) (xs : List A)
      → total m f (sort_by leb_key xs) ≡ total m f xs
  unfolding sort_by
  total-sort_by leb_key f [] = refl
  total-sort_by leb_key f (x ∷ xs) =
      total-insert_sorted leb_key f x (sort_by leb_key xs)
      ∙ ap (m.plus (f x)) (total-sort_by leb_key f xs)
      ∙ sym (total-cons f x xs)

  pub total-map :
      {A B : Type 0} (f : B → D) (g : A → B) (xs : List A)
      → total m f (map g xs) ≡ total m (λ a. f (g a)) xs
  unfolding sum_from
  total-map f g [] = refl
  total-map f g (x ∷ xs) =
      total-cons f (g x) (map g xs)
      ∙ ap (m.plus (f (g x))) (total-map f g xs)
      ∙ sym (total-cons (λ a. f (g a)) x xs)

  -- What passes a test and what passes its complement make up the whole.
  pub total-filter_by :
      {A : Type 0} (p q : A → Bool) (f : A → D) (xs : List A)
      → ((x : A) → q x ≡ not (p x))
      → m.plus (total m f (filter_by p xs)) (total m f (filter_by q xs)) ≡ total m f xs
  unfolding sum_from
  total-filter_by p q f [] apart = exact.zero_plus (zero_decimal m)
  total-filter_by p q f (x ∷ xs) apart =
      let rest = total-filter_by p q f xs apart in
      elim (Bool-cases (p x)) [
        | inl on ↦
            (let off : q x ≡ false = apart x ∙ ap not on in
              rw (on, off)
                (ap (λ d. m.plus d (total m f (filter_by q xs))) (total-cons f x (filter_by p xs))
                  ∙ exact.plus_assoc (f x) (total m f (filter_by p xs)) (total m f (filter_by q xs))
                  ∙ ap (m.plus (f x)) rest
                  ∙ sym (total-cons f x xs)))
        | inr off ↦
            (let on : q x ≡ true = apart x ∙ ap not off in
              rw (on, off)
                (ap (m.plus (total m f (filter_by p xs))) (total-cons f x (filter_by q xs))
                  ∙ swap (total m f (filter_by p xs)) (f x) (total m f (filter_by q xs))
                  ∙ ap (m.plus (f x)) rest
                  ∙ sym (total-cons f x xs)))
      ]
