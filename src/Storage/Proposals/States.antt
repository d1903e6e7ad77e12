-- ===== src/Storage/Proposals/States.antt =====
-- Proofs about `create` and `transition`.
use odoo_mcp.Prelude.{
  ℕ, ℤ, String, true, false, ◌≡◌, refl, ◌∙◌, Option, none, some, List, [], ◌∷◌, arith, is_blank,
  ◌==◌, if◌then◌else◌, inl, inr, Bool-cases, Option-cases, sym,
}
use odoo_mcp.Storage.Models.{
  ProposalState, proposed, executing, executed, failed, unknown, expired, ProposalRecord,
  proposal_transition,
}
use odoo_mcp.Storage.Database.{Db, Result, ok, err, healthy, transaction}
use odoo_mcp.Storage.Put.{put}
use odoo_mcp.Storage.Proposals.{
  allowed, state_eq, is_row, find_proposal, Transition, moved, update_proposals, transition_body,
  transition,
}
use odoo_mcp.Storage.Proposals.Arrival.{
  arrived, number, row_id, moved_lem, state_eq_lem, update_proposals-put,
}
use odoo_mcp.Storage.Proposals.Rows.{
  IsNumbered, find_proposal-update_proposals, update_proposals-IsNumbered, count_expected_lem,
}

-- The proposals of the database are numbered.
abbrev pub HasNumbers : Db → Type 0
HasNumbers db = IsNumbered db.proposal_next db.proposals

abbrev pub with_moved : Transition → ℕ → Db → Db
with_moved t now db = record db { proposals = update_proposals t now db.proposals }

-- How a transition of the row found ends.
abbrev outcome : Transition → ℕ → Option ProposalRecord → Db → Result ProposalRecord × Db
outcome t now none db = (err proposal_transition, db)
outcome t now (some r) db =
    if state_eq r.status t.expected
    then (ok (moved t now r), with_moved t now db)
    else (err proposal_transition, db)

-- The branches of the transaction, on the row found before it.
abbrev body_outcome :
    Transition → ℕ → Option ProposalRecord → Db → Result (Option ProposalRecord) × Db
body_outcome t now none db = (err proposal_transition, with_moved t now db)
body_outcome t now (some r) db = (
  if state_eq r.status t.expected then ok (some (moved t now r)) else err proposal_transition,
  with_moved t now db,
)

is_row_found :
    (tenant_id : String) (id : ℤ) (rs : List ProposalRecord) (r : ProposalRecord)
    → find_proposal tenant_id id rs ≡ some r
    → is_row tenant_id id r ≡ true
unfolding find_proposal
is_row_found tenant_id id [] r f = cc
is_row_found tenant_id id (x ∷ rs) r f = ground (arith, is_row_found tenant_id id rs r)

module _ (now : ℕ) (t : Transition) (db : Db) where
  transition_body_lem :
      (o : Option ProposalRecord)
      → HasNumbers db
      → find_proposal t.tenant_id t.proposal_id db.proposals ≡ o
      → transition_body now t db ≡ body_outcome t now o db
  unfolding transition_body
  transition_body_lem none w f =
      ground (arith, count_expected_lem t now db.proposal_next db.proposals w)
  transition_body_lem (some r) w f = ground (
    arith,
    count_expected_lem t now db.proposal_next db.proposals w,
    find_proposal-update_proposals t now t.tenant_id t.proposal_id db.proposals,
    is_row_found t.tenant_id t.proposal_id db.proposals r f,
  )

  transition_found :
      (o : Option ProposalRecord)
      → HasNumbers db
      → find_proposal t.tenant_id t.proposal_id db.proposals ≡ o
      → is_blank t.tenant_id ≡ false
      → allowed t.expected t.target ≡ true
      → transition healthy now t db ≡ outcome t now o db
  unfolding transition transaction
  transition_found none w f named may = ground (arith, transition_body_lem none w f)
  transition_found (some r) w f named may = ground (arith, transition_body_lem (some r) w f)

module _ (now : ℕ) (t : Transition) where
  -- How a transition of the row found ends: with the proposal arrived, if it is as expected.
  abbrev pub arrival : Option ProposalRecord → Db → Result ProposalRecord × Db
  arrival none db = (err proposal_transition, db)
  arrival (some r) db =
      if number r.status == number t.expected
      then (
        ok (arrived t now r),
        record db { proposals = put row_id (arrived t now r) db.proposals },
      )
      else (err proposal_transition, db)

  -- In a healthy transaction on a numbered table, for a tenant that is not blank, an allowed
  -- transition of a proposal in the expected state returns the proposal with the target as its
  -- state, the time as its time of execution if the target is executed and none otherwise, the
  -- references given, and all other columns as they were; the row with its id becomes that proposal
  -- and nothing else changes. From any other state, or without the proposal, the transition is
  -- refused and nothing changes.
  pub transition_lem :
      (db : Db)
      → HasNumbers db
      → is_blank t.tenant_id ≡ false
      → allowed t.expected t.target ≡ true
      → transition healthy now t db
        ≡ arrival (find_proposal t.tenant_id t.proposal_id db.proposals) db
  transition_lem db w named may =
      elim (Option-cases (find_proposal t.tenant_id t.proposal_id db.proposals)) [
        | inl f ↦ transition_found now t db none w f named may ∙ rw f refl
        | inr (r, f) ↦
            let same = state_eq_lem r.status t.expected in
            transition_found now t db (some r) w f named may
            ∙ elim (Bool-cases (state_eq r.status t.expected)) [
              | inl e ↦
                  let e' : (number r.status == number t.expected) ≡ true = sym same ∙ e in
                  rw
                    (
                      f,
                      e,
                      e',
                      update_proposals-put now t db.proposal_next db.proposals r w f e,
                      moved_lem t now r,
                    )
                    refl
              | inr e ↦
                  let e' : (number r.status == number t.expected) ≡ false = sym same ∙ e in
                  rw (f, e, e') refl
            ]
      ]

allowed_ne : (a b : ProposalState) → allowed a b ≡ true → state_eq b a ≡ false
unfolding allowed state_eq
allowed_ne proposed executing h = refl
allowed_ne proposed expired h = refl
allowed_ne executing executed h = refl
allowed_ne executing failed h = refl
allowed_ne executing unknown h = refl
allowed_ne _ _ h = absurd (cc h)

-- On a numbered table, of two allowed, healthy transitions of a proposal from one state the second
-- is refused: once the first has changed the proposal, the other changes nothing.
pub transition_once :
    (now later : ℕ) (t u : Transition) (db : Db) (r : ProposalRecord)
    → HasNumbers db
    → is_blank t.tenant_id ≡ false
    → allowed t.expected t.target ≡ true
    → find_proposal t.tenant_id t.proposal_id db.proposals ≡ some r
    → state_eq r.status t.expected ≡ true
    → u.tenant_id ≡ t.tenant_id
    → u.proposal_id ≡ t.proposal_id
    → u.expected ≡ t.expected
    → allowed u.expected u.target ≡ true
    → transition healthy later u (transition healthy now t db).1
      ≡ (err proposal_transition, (transition healthy now t db).1)
transition_once now later t u db r w named may f at_state tenant id same may' =
    let db' = with_moved t now db in
    let first : transition healthy now t db ≡ (ok (moved t now r), db') =
      transition_found now t db (some r) w f named may ∙ ground (arith, at_state) in
    let found : find_proposal u.tenant_id u.proposal_id db'.proposals ≡ some (moved t now r) =
      rw (tenant, id)
        (ground (
          arith,
          find_proposal-update_proposals t now t.tenant_id t.proposal_id db.proposals,
          is_row_found t.tenant_id t.proposal_id db.proposals r f,
        )) in
    let sorted = update_proposals-IsNumbered t now db.proposal_next db.proposals w in
    let second : transition healthy later u db' ≡ (err proposal_transition, db') =
      transition_found later u db' (some (moved t now r)) sorted found (rw tenant named) may'
      ∙ ground (arith, allowed_ne t.expected t.target may, same) in
    rw first second
