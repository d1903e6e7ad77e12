-- ===== src/Storage/Proposals/Moves.antt =====
-- The moves of a proposal between its states, and proofs about `transition` on them.
use odoo_mcp.Prelude.{
  ℕ, ℤ, String, true, ◌≡◌, refl, sym, subst, ◌∙◌, ◌⊎◌, inl, inr, Option, none, some, arith,
  is_blank, Bool-cases,
}
use odoo_mcp.Storage.Models.{
  ProposalState, proposed, executing, executed, failed, unknown, expired, ProposalRecord,
}
use odoo_mcp.Storage.Database.{Db, Result, ok, err, Fault, transaction, transaction_induction}
use odoo_mcp.Storage.Proposals.{
  allowed, state_eq, find_proposal, Transition, moved, is_expected, transition_body, transition,
  resolved,
}
use odoo_mcp.Storage.Proposals.Rows.{advanced, find_proposal-update_proposals}
use odoo_mcp.Storage.Proposals.States.{with_moved}

-- The moves of a proposal between its states.
pub data Move : ProposalState → ProposalState → Type 0 where
  start : Move proposed executing
  expire : Move proposed expired
  complete : Move executing executed
  give_up : Move executing failed
  lose : Move executing unknown

allowed-Move : (a b : ProposalState) → allowed a b ≡ true → Move a b
unfolding allowed
allowed-Move proposed executing h = start
allowed-Move proposed expired h = expire
allowed-Move executing executed h = complete
allowed-Move executing failed h = give_up
allowed-Move executing unknown h = lose
allowed-Move _ _ h = absurd (cc h)

state_eq-≡ : (a b : ProposalState) → state_eq a b ≡ true → a ≡ b
unfolding state_eq
state_eq-≡ proposed proposed h = refl
state_eq-≡ executing executing h = refl
state_eq-≡ executed executed h = refl
state_eq-≡ failed failed h = refl
state_eq-≡ unknown unknown h = refl
state_eq-≡ expired expired h = refl
state_eq-≡ _ _ h = absurd (cc h)

-- A row after an operation: as it was, or with its state moved on and all but its time and its
-- references as it was.
pub data Follows (r s : ProposalRecord) : Type 0 where
  stayed : s ≡ r → Follows r s
  moved_on : (t : Transition) (now : ℕ) → s ≡ moved t now r → Move r.status s.status → Follows r s

-- The row found under an id follows the one given.
abbrev pub Next : String → ℤ → ProposalRecord → Db → Type 0
Next tenant_id id r db =
    (s : ProposalRecord) × (find_proposal tenant_id id db.proposals ≡ some s) × Follows r s

advanced-Follows :
    (t : Transition) (now : ℕ) (r : ProposalRecord)
    → allowed t.expected t.target ≡ true
    → Follows r (advanced t now r)
advanced-Follows t now r may = elim (Bool-cases (is_expected t r)) [
  | inr off ↦ rw off (stayed refl)
  | inl on ↦
      (let same = state_eq-≡ r.status t.expected (ground arith) in
        rw on (
          moved_on t now refl
            (subst (λ x. Move x t.target) (sym same) (allowed-Move t.expected t.target may))))
]

module _ (fault : Fault) (now : ℕ) (t : Transition) (db : Db) where
  after_resolved :
      (x : Result (Option ProposalRecord)) (d : Db)
      → (elim x as (λ _. Result ProposalRecord × Db) [ ok o ↦ resolved o d | err e ↦ (err e, d) ]).1
        ≡ d
  after_resolved (ok none) d = refl
  after_resolved (ok (some r)) d = refl
  after_resolved (err e) d = refl

  transition_cases :
      ((transition fault now t db).1 ≡ db)
      ⊎ ((allowed t.expected t.target ≡ true)
          × ((transition fault now t db).1 ≡ (transaction fault (transition_body now t) db).1))
  unfolding transition
  transition_cases =
      let ended = transaction fault (transition_body now t) db in
      elim (Bool-cases (is_blank t.tenant_id)) [
        | inl blank ↦ inl (rw blank)
        | inr named ↦ elim (Bool-cases (allowed t.expected t.target)) [
          | inr bad ↦ inl (rw (named, bad))
          | inl may ↦ inr (may, rw (named, may) (after_resolved ended.0 ended.1))
        ]
      ]

  transition_body_db : (transition_body now t db).1 ≡ with_moved t now db
  unfolding transition_body
  transition_body_db = ground arith

  -- Whatever its arguments and however its transaction ends, a transition leaves every proposal as
  -- it was or moves its state by one of the allowed moves; its payload, owner and id stay.
  pub transition-Next :
      (tenant_id : String) (id : ℤ) (r : ProposalRecord)
      → find_proposal tenant_id id db.proposals ≡ some r
      → Next tenant_id id r (transition fault now t db).1
  transition-Next tenant_id id r f =
      let unchanged : Next tenant_id id r db = (r, f, stayed refl) in
      elim transition_cases [
        | inl same ↦ rw same unchanged
        | inr (may, same) ↦ rw same (
            transaction_induction (Next tenant_id id r) fault (transition_body now t) db unchanged (
              rw transition_body_db (
                advanced t now r,
                find_proposal-update_proposals t now tenant_id id db.proposals ∙ rw f,
                advanced-Follows t now r may,
              )))
      ]
