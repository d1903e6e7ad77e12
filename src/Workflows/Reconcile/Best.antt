-- ===== src/Workflows/Reconcile/Best.antt =====
-- Proofs that a match is the best of all the candidates.
use mathlib.Core.List.{Memᴰ}
use odoo_mcp.Prelude.{
  true, false, ◌≡◌, ◌≢◌, refl, sym, ap, ◌∙◌, subst, none, some, List, [], ◌∷◌, All, filter_by,
  arith, ◌⊎◌, inl, inr, Bool-cases,
}
use odoo_mcp.Workflows.Values.{Decimal, BankStatementLine, answered, crashed}
use odoo_mcp.Workflows.Sorting.Sorted.{IsPreorder, IsSorted}
use odoo_mcp.Workflows.Reconcile.{Candidate, Decision}
use odoo_mcp.Workflows.Reconcile.Decisions.{leb_scored, judge, choose}
use odoo_mcp.Workflows.Reconcile.Decisions.Indexed.{IsSymmetric}

-- The order of decimals.
pub record IsOrdered {D : Type 0} (m : Decimal D) : Type 0 where
  pub asymmetric : (a b : D) → m.ltb a b ≡ true → m.ltb b a ≡ false
  pub equal : (a b : D) → m.eqb a b ≡ true → m.ltb b a ≡ false
  pub connected : (a b : D) → m.eqb a b ≡ false → m.ltb a b ≡ false → m.ltb b a ≡ true
  pub transitive : (a b c : D) → m.ltb b a ≡ false → m.ltb c b ≡ false → m.ltb c a ≡ false
  pub negate_ltb : (a b : D) → m.ltb (m.negate a) (m.negate b) ≡ m.ltb b a

not_chosen :
    {D : Type 0} (d d' : Decision D) (c : Candidate D)
    → d.candidate ≡ none
    → answered d ≡ answered d'
    → d'.candidate ≢ some c
not_chosen d d' c free h chosen =
    let same : d ≡ d' = cc h in
    let free' : d'.candidate ≡ none = subst (λ (e : Decision _). e.candidate ≡ none) same free in
    cc (free', chosen)

module _ {D : Type 0} (m : Decimal D) (ordered : IsOrdered m) where
  abbrev pub AtLeast : Candidate D → Candidate D → Type 0
  AtLeast a b = m.ltb a.score b.score ≡ false

  pub leb_scored-IsPreorder : IsPreorder (leb_scored m) AtLeast
  leb_scored-IsPreorder = record {
    before = λ a b. λ h. elim (Bool-cases (m.ltb (m.negate a.score) (m.negate b.score))) [
      | inl less ↦
          ordered.asymmetric b.score a.score (sym (ordered.negate_ltb a.score b.score) ∙ less)
      | inr level ↦
          sym (ordered.negate_ltb b.score a.score)
          ∙ ordered.equal (m.negate a.score) (m.negate b.score) (ground arith)
    ];
    after = λ a b. λ h. sym (ordered.negate_ltb a.score b.score) ∙ ground arith;
    transitive = λ a b c. λ h h'. ordered.transitive c.score b.score a.score h' h;
  }

  -- The candidates whose score is another one.
  filter_by-nil :
      (c : Candidate D) (xs : List (Candidate D))
      → filter_by (λ (e : Candidate D). m.eqb e.score c.score) xs ≡ []
      → All (λ (e : Candidate D). m.eqb e.score c.score ≡ false) xs
  filter_by-nil c [] h = tt
  filter_by-nil c (x ∷ xs) h = elim (Bool-cases (m.eqb x.score c.score)) [
    | inl level ↦ absurd (let h' = rw level at h in cc h')
    | inr apart ↦ (apart, filter_by-nil c xs (rw apart at h))
  ]

  judge_chosen :
      (s : BankStatementLine D) (threshold best : D) (cs : List (Candidate D)) (d : Decision D)
      (c : Candidate D)
      → judge m s threshold best cs ≡ answered d
      → d.candidate ≡ some c
      → (cs ≡ c ∷ []) × (m.ltb best threshold ≡ false) × (d.statement ≡ s)
  unfolding judge
  judge_chosen s threshold best [] d c h chosen = elim (Bool-cases (m.ltb best threshold)) [
    | inl low ↦ absurd (let h' = rw low at h in not_chosen _ d c refl h' chosen)
    | inr high ↦ absurd (let h' : crashed ≡ answered d = rw high at h in cc h')
  ]
  judge_chosen s threshold best (x ∷ []) d c h chosen = elim (Bool-cases (m.ltb best threshold)) [
    | inl low ↦ absurd (let h' = rw low at h in not_chosen _ d c refl h' chosen)
    | inr high ↦
        (let matched : Decision D = record {
          statement = s;
          candidate = some x;
          best_score = some best;
          reason = none;
        } in
          let h' : answered matched ≡ answered d = rw high at h in
          let same : matched ≡ d = cc h' in
          let choice : some x ≡ some c = ap (λ (e : Decision D). e.candidate) same ∙ chosen in
          let is_c : x ≡ c = cc choice in
          (
            ap (λ (e : Candidate D). e ∷ []) is_c,
            high,
            sym (ap (λ (e : Decision D). e.statement) same),
          ))
  ]
  judge_chosen s threshold best (x ∷ y ∷ cs) d c h chosen = absurd (not_chosen _ d c refl h chosen)

  -- It is at least the threshold, and every other candidate of the list scores less.
  abbrev pub Wins : D → Candidate D → List (Candidate D) → Type 0
  Wins threshold c cs =
      (m.ltb c.score threshold ≡ false)
      × All (λ (e : Candidate D). (e ≡ c) ⊎ (m.ltb e.score c.score ≡ true)) cs

  below :
      (symmetric : IsSymmetric m) (c : Candidate D) (rest : List (Candidate D))
      → All (AtLeast c) rest
      → All (λ (e : Candidate D). m.eqb e.score c.score ≡ false) rest
      → All (λ (e : Candidate D). (e ≡ c) ⊎ (m.ltb e.score c.score ≡ true)) rest
  below symmetric c [] first apart = tt
  below symmetric c (e ∷ rest) first apart = (
    inr (
        ordered.connected c.score e.score (symmetric.equality.symmetric c.score e.score ∙ apart.0)
          first.0),
    below symmetric c rest first.1 apart.1,
  )

  pub choose_chosen :
      (s : BankStatementLine D) (threshold : D) (cs : List (Candidate D)) (d : Decision D)
      (c : Candidate D)
      → IsSymmetric m
      → IsSorted (leb_scored m) AtLeast cs
      → choose m s threshold cs ≡ answered d
      → d.candidate ≡ some c
      → Wins threshold c cs × Memᴰ c cs × (d.statement ≡ s)
  unfolding choose
  choose_chosen s threshold [] d c symmetric sorted h chosen =
      absurd (not_chosen _ d c refl h chosen)
  choose_chosen s threshold (x ∷ rest) d c symmetric sorted h chosen =
      let level = filter_by (λ (e : Candidate D). m.eqb e.score x.score) rest in
      let h' : judge m s threshold x.score (x ∷ level) ≡ answered d =
        rw (symmetric.equality.reflexive x.score) at h in
      let (alone, high, same) = judge_chosen s threshold x.score (x ∷ level) d c h' chosen in
      let is_c : x ≡ c = cc alone in
      let none_level : level ≡ [] = cc alone in
      let apart = filter_by-nil x rest none_level in
      let wins : Wins threshold x (x ∷ rest) =
        (high, (inl refl, below symmetric x rest sorted.0 apart)) in
      (subst (λ e. Wins threshold e (x ∷ rest)) is_c wins, Memᴰ.head (sym is_c), same)
