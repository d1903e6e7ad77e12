-- ===== src/Workflows/Sorting/Sorted.antt =====
-- Proofs about what a sort keeps and what it puts first.
use odoo_mcp.Prelude.{
  refl, ℕ, ◌||◌, ◌∙◌, ap, subst, any_of, all_of, leb, ◌==◌, arith, Bool, true, false, ◌≡◌, List, [],
  ◌∷◌, All, Bool-cases, inl, inr,
}
use odoo_mcp.Workflows.Sorting.{insert_sorted, sort_by}

any_of-insert_sorted :
    (p : ℕ → Bool) (i : ℕ) (xs : List ℕ) → any_of p (insert_sorted leb i xs) ≡ (p i || any_of p xs)
unfolding insert_sorted
any_of-insert_sorted p i [] = refl
any_of-insert_sorted p i (x ∷ xs) = elim (Bool-cases (leb i x)) [
  | inl here ↦ rw here
  | inr later ↦ rw later (ground (arith, any_of-insert_sorted p i xs))
]

pub any_of-sort_by : (p : ℕ → Bool) (xs : List ℕ) → any_of p (sort_by leb xs) ≡ any_of p xs
unfolding sort_by
any_of-sort_by p [] = refl
any_of-sort_by p (x ∷ xs) =
    any_of-insert_sorted p x (sort_by leb xs) ∙ ap (λ b. p x || b) (any_of-sort_by p xs)

pub all_of-any_of :
    (p : ℕ → Bool) (n : ℕ) (xs : List ℕ)
    → all_of p xs ≡ true
    → any_of (λ i. i == n) xs ≡ true
    → p n ≡ true
all_of-any_of p n [] every has = absurd (cc has)
all_of-any_of p n (x ∷ xs) every has = elim (Bool-cases (x == n)) [
  | inl same ↦ (let is_n : x ≡ n = ground arith in subst (λ i. p i ≡ true) is_n (ground arith))
  | inr other ↦ all_of-any_of p n xs (ground arith) (ground arith)
]

pub All-mono :
    {A : Type 0} (P Q : A → Type 0) (xs : List A) → ((a : A) → P a → Q a) → All P xs → All Q xs
All-mono P Q [] each w = tt
All-mono P Q (x ∷ xs) each w = (each x w.0, All-mono P Q xs each w.1)

module _ {A : Type 0} (leb_key : A → A → Bool) where
  All-insert_sorted :
      (P : A → Type 0) (a : A) (xs : List A) → P a → All P xs → All P (insert_sorted leb_key a xs)
  unfolding insert_sorted
  All-insert_sorted P a [] p w = (p, tt)
  All-insert_sorted P a (x ∷ xs) p w = elim (Bool-cases (leb_key a x)) [
    | inl here ↦ rw here (p, w)
    | inr later ↦ rw later (w.0, All-insert_sorted P a xs p w.1)
  ]

  pub All-sort_by : (P : A → Type 0) (xs : List A) → All P xs → All P (sort_by leb_key xs)
  unfolding sort_by
  All-sort_by P [] w = tt
  All-sort_by P (x ∷ xs) w = All-insert_sorted P x (sort_by leb_key xs) w.0 (All-sort_by P xs w.1)

  insert_sorted-All :
      (P : A → Type 0) (a : A) (xs : List A) → All P (insert_sorted leb_key a xs) → P a × All P xs
  unfolding insert_sorted
  insert_sorted-All P a [] w = w
  insert_sorted-All P a (x ∷ xs) w = elim (Bool-cases (leb_key a x)) [
    | inl here ↦ rw here at w
    | inr later ↦
        (let w' : P x × All P (insert_sorted leb_key a xs) = rw later at w in
          let (p, rest) = insert_sorted-All P a xs w'.1 in (p, (w'.0, rest)))
  ]

  pub sort_by-All : (P : A → Type 0) (xs : List A) → All P (sort_by leb_key xs) → All P xs
  unfolding sort_by
  sort_by-All P [] w = tt
  sort_by-All P (x ∷ xs) w =
      let (p, rest) = insert_sorted-All P x (sort_by leb_key xs) w in (p, sort_by-All P xs rest)

  -- A relation that the test decides one way or the other, and that is transitive.
  pub record IsPreorder (R : A → A → Type 0) : Type 0 where
    pub before : (a b : A) → leb_key a b ≡ true → R a b
    pub after : (a b : A) → leb_key a b ≡ false → R b a
    pub transitive : (a b c : A) → R a b → R b c → R a c

  abbrev pub IsSorted : (A → A → Type 0) → List A → Type 0
  IsSorted R [] = Unit
  IsSorted R (x ∷ xs) = All (R x) xs × IsSorted R xs

  insert_sorted-IsSorted :
      (R : A → A → Type 0) (a : A) (xs : List A)
      → IsPreorder R
      → IsSorted R xs
      → IsSorted R (insert_sorted leb_key a xs)
  unfolding insert_sorted
  insert_sorted-IsSorted R a [] order w = (tt, tt)
  insert_sorted-IsSorted R a (x ∷ xs) order w = elim (Bool-cases (leb_key a x)) [
    | inl here ↦
        (let first = order.before a x here in
          rw here ((first, All-mono (R x) (R a) xs (λ b. order.transitive a x b first) w.0), w))
    | inr later ↦ rw later (
      All-insert_sorted (R x) a xs (order.after a x later) w.0,
      insert_sorted-IsSorted R a xs order w.1,
    )
  ]

  pub sort_by-IsSorted :
      (R : A → A → Type 0) (xs : List A) → IsPreorder R → IsSorted R (sort_by leb_key xs)
  unfolding sort_by
  sort_by-IsSorted R [] order = tt
  sort_by-IsSorted R (x ∷ xs) order =
      insert_sorted-IsSorted R x (sort_by leb_key xs) order (sort_by-IsSorted R xs order)
