-- ===== src/Workflows/Reconcile/Decisions/Indexed.antt =====
-- Proofs about what the dicts of `_decisions` hold, and what `_candidate` makes of the lines that they
-- leave out.
use mathlib.Core.List.{append-nil, append_assoc}
use odoo_mcp.Prelude.{
  ℕ, String, Bool, true, false, ◌&&◌, ◌≡◌, refl, sym, ap, ◌∙◌, Option, none, some, List, [], ◌∷◌,
  ◌++◌, filter_by, ◌==◌, if◌then◌else◌, arith, Bool-cases, Option-cases, inl, inr,
}
use odoo_mcp.Workflows.Values.{
  Decimal, RelatedRecord, Currency, Journal, AccountMoveLine, BankStatementLine,
}
use odoo_mcp.Workflows.Reconcile.{find_currency}
use odoo_mcp.Workflows.Reconcile.Scoring.{round_currency_amount, candidate_of}
use odoo_mcp.Workflows.Reconcile.Buckets.{items_at}
use odoo_mcp.Workflows.Reconcile.Buckets.Lookup.{IsEquality, items_at-add_to}
use odoo_mcp.Workflows.Reconcile.Decisions.{
  Index, cons_some, collect, same_key, indexed_at, line_currency, index_lines,
}

-- Decimals that are equal or not as their values are, and a rounding half up that is symmetric about
-- zero.
pub record IsSymmetric {D : Type 0} (m : Decimal D) : Type 0 where
  pub equality : IsEquality m.eqb
  pub negate_eqb : (a b : D) → m.eqb (m.negate a) (m.negate b) ≡ m.eqb a b
  pub negate_twice : (a : D) → m.eqb (m.negate (m.negate a)) a ≡ true
  pub round_negate :
      (a : D) (c : Currency D)
      → m.eqb (round_currency_amount m (m.negate a) c) (m.negate (round_currency_amount m a c))
        ≡ true

pub collect-filter_by :
    {A B : Type 0} (f : A → Option B) (p : A → Bool) (xs : List A)
    → ((x : A) → p x ≡ false → f x ≡ none)
    → collect f (filter_by p xs) ≡ collect f xs
collect-filter_by f p [] none_out = refl
collect-filter_by f p (x ∷ xs) none_out = elim (Bool-cases (p x)) [
  | inl on ↦ rw on (ap (cons_some (f x)) (collect-filter_by f p xs none_out))
  | inr off ↦ rw (off, none_out x off) (collect-filter_by f p xs none_out)
]

module _ {D : Type 0} (m : Decimal D) (symmetric : IsSymmetric m) where
  -- The two sides of the comparison of amounts may be exchanged.
  exchange :
      (a b : D) (c : Currency D)
      → m.eqb (round_currency_amount m a c) (round_currency_amount m (m.negate b) c)
        ≡ m.eqb (round_currency_amount m b c) (round_currency_amount m (m.negate a) c)
  exchange a b c =
      let eqb = m.eqb in
      let eq = symmetric.equality in
      let ra = round_currency_amount m a c in
      let rb = round_currency_amount m b c in
      eq.symmetric ra (round_currency_amount m (m.negate b) c)
      ∙ eq.transitive (round_currency_amount m (m.negate b) c) (m.negate rb) ra
          (symmetric.round_negate b c)
      ∙ eq.symmetric (m.negate rb) ra
      ∙ sym (eq.transitive (m.negate (m.negate ra)) ra (m.negate rb) (symmetric.negate_twice ra))
      ∙ symmetric.negate_eqb (m.negate ra) rb
      ∙ sym (
          eq.transitive (round_currency_amount m (m.negate a) c) (m.negate ra) rb
            (symmetric.round_negate a c))
      ∙ eq.symmetric (round_currency_amount m (m.negate a) c) rb

  same_key-IsEquality : IsEquality (same_key m)
  same_key-IsEquality = record {
    reflexive = λ (i, a). ground (arith, symmetric.equality.reflexive a);
    symmetric = λ (i, a) (j, b). ground (arith, symmetric.equality.symmetric a b);
    transitive = λ (i, a) (j, b) (n, c). λ h. ground (arith, symmetric.equality.transitive a b c);
  }

module _ {D : Type 0} (m : Decimal D) (company_currency : RelatedRecord)
    (company_value : Currency D) (currencies : List (Currency D)) where
  -- What a loop over the lines finds under a key, if each of its steps adds the line where the test
  -- holds.
  pub find_indexed :
      (found : Index D → List (AccountMoveLine D)) (test : AccountMoveLine D → Bool)
      (ls : List (AccountMoveLine D)) (index : Index D)
      → ((l : AccountMoveLine D) (index : Index D)
          → found (
              indexed_at m company_currency company_value l l.currency
                (line_currency m l.currency currencies)
                index)
            ≡ (if test l then found index ++ l ∷ [] else found index))
      → found (index_lines m company_currency company_value currencies ls index)
        ≡ found index ++ filter_by test ls
  unfolding index_lines
  find_indexed found test [] index step = sym (append-nil (found index))
  find_indexed found test (l ∷ ls) index step =
      let next =
        indexed_at m company_currency company_value l l.currency
          (line_currency m l.currency currencies) index in
      find_indexed found test ls next step
      ∙ ap (λ xs. xs ++ filter_by test ls) (step l index)
      ∙ elim (Bool-cases (test l)) [
        | inl on ↦ rw on (append_assoc (found index) (l ∷ []) (filter_by test ls))
        | inr off ↦ rw off
      ]

  abbrev pub company_at : D → AccountMoveLine D → Option RelatedRecord → Option (Currency D) → Bool
  company_at key l none found = false
  company_at key l (some c) none = false
  company_at key l (some c) (some f) =
      c.id == company_currency.id && m.eqb (round_currency_amount m l.residual company_value) key

  abbrev pub in_company : D → AccountMoveLine D → Bool
  in_company key l = company_at key l l.currency (line_currency m l.currency currencies)

  abbrev pub currency_at :
      ℕ × D → AccountMoveLine D → Option RelatedRecord → Option (Currency D) → Bool
  currency_at key l none found = false
  currency_at key l (some c) none = false
  currency_at key l (some c) (some f) =
      same_key m (c.id, round_currency_amount m l.residual_currency f) key

  abbrev pub in_currency : ℕ × D → AccountMoveLine D → Bool
  in_currency key l = currency_at key l l.currency (line_currency m l.currency currencies)

  pub company_step :
      (key : D) (l : AccountMoveLine D) (c : Option RelatedRecord) (f : Option (Currency D))
      (index : Index D)
      → IsSymmetric m
      → items_at m.eqb key
          (indexed_at m company_currency company_value l c f index).company_candidates
        ≡ (if company_at key l c f
            then items_at m.eqb key index.company_candidates ++ l ∷ []
            else items_at m.eqb key index.company_candidates)
  company_step key l none f index symmetric = refl
  company_step key l (some c) none index symmetric = refl
  company_step key l (some c) (some f) index symmetric =
      let amount = round_currency_amount m l.residual company_value in
      ground (arith, items_at-add_to m.eqb symmetric.equality amount key l index.company_candidates)

  pub currency_step :
      (key : ℕ × D) (l : AccountMoveLine D) (c : Option RelatedRecord) (f : Option (Currency D))
      (index : Index D)
      → IsSymmetric m
      → items_at
          (same_key m)
          key
          (indexed_at m company_currency company_value l c f index).currency_candidates
        ≡ (if currency_at key l c f
            then items_at (same_key m) key index.currency_candidates ++ l ∷ []
            else items_at (same_key m) key index.currency_candidates)
  currency_step key l none f index symmetric = refl
  currency_step key l (some c) none index symmetric = refl
  currency_step key l (some c) (some f) index symmetric =
      items_at-add_to (same_key m) (same_key-IsEquality m symmetric)
        (c.id, round_currency_amount m l.residual_currency f) key l index.currency_candidates

  pub company_out :
      (fold : String → String) (s : BankStatementLine D) (journal : Journal)
      → IsSymmetric m
      → journal.currency ≡ none
      → find_currency company_currency.id currencies ≡ some company_value
      → (l : AccountMoveLine D)
      → in_company (round_currency_amount m (m.negate s.amount) company_value) l ≡ false
      → candidate_of m fold s l journal company_currency company_value ≡ none
  unfolding candidate_of
  company_out fold s journal symmetric plain priced l out = elim (Option-cases l.currency) [
    | inl no_currency ↦ rw (no_currency, plain) (ground arith)
    | inr (c, has_currency) ↦ elim (Bool-cases (c.id == company_currency.id)) [
      | inr other ↦ rw (has_currency, plain) (ground arith)
      | inl same ↦
          (let is : c.id ≡ company_currency.id = ground arith in
            let found : find_currency c.id currencies ≡ some company_value = rw is priced in
            let apart : m.eqb (round_currency_amount m l.residual company_value)
                  (round_currency_amount m (m.negate s.amount) company_value)
                ≡ false =
              (let h = rw (has_currency, found) at out in ground arith) in
            rw (has_currency, plain)
              (ground (arith, exchange m symmetric s.amount l.residual company_value)))
    ]
  ]

  pub currency_out :
      (fold : String → String) (s : BankStatementLine D) (journal : Journal) (own : RelatedRecord)
      (effective : Currency D)
      → IsSymmetric m
      → journal.currency ≡ some own
      → find_currency own.id currencies ≡ some effective
      → (l : AccountMoveLine D)
      → in_currency (own.id, round_currency_amount m (m.negate s.amount) effective) l ≡ false
      → candidate_of m fold s l journal company_currency effective ≡ none
  unfolding candidate_of
  currency_out fold s journal own effective symmetric foreign priced l out =
      elim (Option-cases l.currency) [
        | inl no_currency ↦ rw (no_currency, foreign) (ground arith)
        | inr (c, has_currency) ↦ elim (Bool-cases (c.id == own.id)) [
          | inr other ↦ rw (has_currency, foreign) (ground arith)
          | inl same ↦
              (let is : c.id ≡ own.id = ground arith in
                let found : find_currency c.id currencies ≡ some effective = rw is priced in
                let apart : m.eqb (round_currency_amount m l.residual_currency effective)
                      (round_currency_amount m (m.negate s.amount) effective)
                    ≡ false =
                  (let h = rw (has_currency, found) at out in ground arith) in
                rw (has_currency, foreign)
                  (ground (arith, exchange m symmetric s.amount l.residual_currency effective)))
        ]
      ]
