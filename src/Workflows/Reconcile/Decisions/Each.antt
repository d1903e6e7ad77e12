-- ===== src/Workflows/Reconcile/Decisions/Each.antt =====
-- Proofs about a loop that stops at the first error.
use odoo_mcp.Prelude.{
  suc, ◌≡◌, ◌≢◌, refl, ap, subst, Option, none, some, List, [], ◌∷◌, map, length, All,
}
use odoo_mcp.Workflows.Values.{for_each, Reply, answered, crashed, bind_answered}
use odoo_mcp.Workflows.Crashes.{bind_safe}
use odoo_mcp.Workflows.Reconcile.Decisions.{subscript}

module _ {A B : Type 0} where
  pub for_each_safe :
      (f : A → Reply B) (xs : List A) → All (λ a. f a ≢ crashed) xs → for_each f xs ≢ crashed
  unfolding for_each
  for_each_safe f [] safe = λ h. cc h
  for_each_safe f (x ∷ xs) safe =
      bind_safe (f x) _ safe.0
        (λ b same. bind_safe (for_each f xs) _ (for_each_safe f xs safe.1) (λ bs same'. λ h. cc h))

  pub for_each-All :
      (P : B → Type 0) (f : A → Reply B) (xs : List A) (bs : List B)
      → ((a : A) (b : B) → f a ≡ answered b → P b)
      → for_each f xs ≡ answered bs
      → All P bs
  unfolding for_each
  for_each-All P f [] bs each h = let same : [] ≡ bs = cc h in subst (All P) same tt
  for_each-All P f (x ∷ xs) bs each h =
      let (b, first, h') = bind_answered (f x) _ bs h in
      let (rest, others, h'') = bind_answered (for_each f xs) (λ rest. answered (b ∷ rest)) bs h' in
      let same : b ∷ rest ≡ bs = cc h'' in
      subst (All P) same (each x b first, for_each-All P f xs rest each others)

  pub for_each-map :
      (g : B → A) (f : A → Reply B) (xs : List A) (bs : List B)
      → ((a : A) (b : B) → f a ≡ answered b → g b ≡ a)
      → for_each f xs ≡ answered bs
      → map g bs ≡ xs
  unfolding for_each
  for_each-map g f [] bs each h = let same : [] ≡ bs = cc h in subst (λ ys. map g ys ≡ []) same refl
  for_each-map g f (x ∷ xs) bs each h =
      let (b, first, h') = bind_answered (f x) _ bs h in
      let (rest, others, h'') = bind_answered (for_each f xs) (λ rest. answered (b ∷ rest)) bs h' in
      let same : b ∷ rest ≡ bs = cc h'' in
      subst (λ ys. map g ys ≡ x ∷ xs) same
        (cc (each x b first, for_each-map g f xs rest each others))

  pub for_each-length :
      (f : A → Reply B) (xs : List A) (bs : List B)
      → for_each f xs ≡ answered bs
      → length bs ≡ length xs
  unfolding for_each
  for_each-length f [] bs h = let same : [] ≡ bs = cc h in subst (λ ys. length ys ≡ 0) same refl
  for_each-length f (x ∷ xs) bs h =
      let (b, first, h') = bind_answered (f x) _ bs h in
      let (rest, others, h'') = bind_answered (for_each f xs) (λ rest. answered (b ∷ rest)) bs h' in
      let same : b ∷ rest ≡ bs = cc h'' in
      subst (λ ys. length ys ≡ suc (length xs)) same (ap suc (for_each-length f xs rest others))

pub subscript-answered : {A : Type 0} (o : Option A) (a : A) → subscript o ≡ answered a → o ≡ some a
subscript-answered none a h = absurd (cc h)
subscript-answered (some b) a h = cc h
