-- ===== src/Storage/Proposals/Arrival.antt =====
-- The proposal that a transition makes, and the UPDATE of `transition` as a change of one row.
use odoo_mcp.Prelude.{
  ℕ, true, false, ◌≡◌, refl, ap, subst, Option, none, some, List, [], ◌∷◌, arith, ◌==◌, any_of, inl,
  inr, Bool-cases,
}
use odoo_mcp.Storage.Models.{
  ProposalState, proposed, executing, executed, failed, unknown, expired, ProposalRecord,
}
use odoo_mcp.Storage.Put.{put, put_absent}
use odoo_mcp.Storage.Proposals.{
  state_eq, is_row, find_proposal, Transition, executed_time, moved, update_proposals,
}
use odoo_mcp.Storage.Proposals.Rows.{IsNumbered, same_id, has_one_id}

-- The time at which a proposal that reaches the state was executed.
abbrev pub time_if_executed : ProposalState → ℕ → Option ℕ
time_if_executed executed now = some now
time_if_executed proposed now = none
time_if_executed executing now = none
time_if_executed failed now = none
time_if_executed unknown now = none
time_if_executed expired now = none

-- The proposal after the transition, column by column.
abbrev pub arrived : Transition → ℕ → ProposalRecord → ProposalRecord
arrived t now r = record {
  id = r.id;
  request_id = r.request_id;
  tenant_id = r.tenant_id;
  company_id = r.company_id;
  tool_name = r.tool_name;
  module_name = r.module_name;
  proposal_type = r.proposal_type;
  payload = r.payload;
  status = t.target;
  executed_at = time_if_executed t.target now;
  erp_record_refs = t.erp_record_refs;
  created_at = r.created_at;
}

pub moved_lem : (t : Transition) (now : ℕ) (r : ProposalRecord) → moved t now r ≡ arrived t now r
unfolding executed_time
moved_lem t now r =
    ap
      (λ (o : Option ℕ). record r {
        status = t.target;
        executed_at = o;
        erp_record_refs = t.erp_record_refs;
      })
      (timed t.target)
  where
    timed : (s : ProposalState) → executed_time s now ≡ time_if_executed s now
    timed executed = refl
    timed proposed = refl
    timed executing = refl
    timed failed = refl
    timed unknown = refl
    timed expired = refl

-- The number of a state, by which states are told apart.
abbrev pub number : ProposalState → ℕ
number proposed = 0
number executing = 1
number executed = 2
number failed = 3
number unknown = 4
number expired = 5

pub state_eq_lem : (a b : ProposalState) → state_eq a b ≡ (number a == number b)
unfolding state_eq
state_eq_lem proposed proposed = refl
state_eq_lem proposed executing = refl
state_eq_lem proposed executed = refl
state_eq_lem proposed failed = refl
state_eq_lem proposed unknown = refl
state_eq_lem proposed expired = refl
state_eq_lem executing proposed = refl
state_eq_lem executing executing = refl
state_eq_lem executing executed = refl
state_eq_lem executing failed = refl
state_eq_lem executing unknown = refl
state_eq_lem executing expired = refl
state_eq_lem executed proposed = refl
state_eq_lem executed executing = refl
state_eq_lem executed executed = refl
state_eq_lem executed failed = refl
state_eq_lem executed unknown = refl
state_eq_lem executed expired = refl
state_eq_lem failed proposed = refl
state_eq_lem failed executing = refl
state_eq_lem failed executed = refl
state_eq_lem failed failed = refl
state_eq_lem failed unknown = refl
state_eq_lem failed expired = refl
state_eq_lem unknown proposed = refl
state_eq_lem unknown executing = refl
state_eq_lem unknown executed = refl
state_eq_lem unknown failed = refl
state_eq_lem unknown unknown = refl
state_eq_lem unknown expired = refl
state_eq_lem expired proposed = refl
state_eq_lem expired executing = refl
state_eq_lem expired executed = refl
state_eq_lem expired failed = refl
state_eq_lem expired unknown = refl
state_eq_lem expired expired = refl

abbrev pub row_id : ProposalRecord → ℕ
row_id r = r.id

module _ (now : ℕ) (t : Transition) where
  update_absent :
      (x : ProposalRecord) (rs : List ProposalRecord)
      → any_of (same_id x) rs ≡ false
      → is_row t.tenant_id t.proposal_id x ≡ true
      → update_proposals t now rs ≡ rs
  unfolding update_proposals
  update_absent x [] a h = refl
  update_absent x (y ∷ rs) a h = ground (arith, update_absent x rs, has_one_id t.proposal_id x y)

  found_other :
      (x r : ProposalRecord) (rs : List ProposalRecord)
      → find_proposal t.tenant_id t.proposal_id rs ≡ some r
      → any_of (same_id x) rs ≡ false
      → (x.id == r.id) ≡ false
  unfolding find_proposal
  found_other x r [] f a = cc
  found_other x r (y ∷ rs) f a = ground (arith, found_other x r rs)

  put_head :
      (x : ProposalRecord) (rs : List ProposalRecord)
      → any_of (same_id x) rs ≡ false
      → is_row t.tenant_id t.proposal_id x ≡ true
      → state_eq x.status t.expected ≡ true
      → update_proposals t now (x ∷ rs) ≡ put row_id (moved t now x) (x ∷ rs)
  unfolding update_proposals put
  put_head x rs a h e =
      rw (h, e, update_absent x rs a h, put_absent row_id (moved t now x) rs a) (ground arith)

  put_tail :
      (x a : ProposalRecord) (rs : List ProposalRecord)
      → is_row t.tenant_id t.proposal_id x ≡ false
      → (x.id == a.id) ≡ false
      → update_proposals t now rs ≡ put row_id a rs
      → update_proposals t now (x ∷ rs) ≡ put row_id a (x ∷ rs)
  unfolding update_proposals put
  put_tail x a rs there other rest = rw (there, other, rest) refl

  -- The UPDATE puts the changed row in the place of the one that the SELECT finds.
  pub update_proposals-put :
      (next : ℕ) (rs : List ProposalRecord) (r : ProposalRecord)
      → IsNumbered next rs
      → find_proposal t.tenant_id t.proposal_id rs ≡ some r
      → state_eq r.status t.expected ≡ true
      → update_proposals t now rs ≡ put row_id (moved t now r) rs
  unfolding find_proposal
  update_proposals-put next [] r w f e = absurd (cc f)
  update_proposals-put next (x ∷ rs) r w f e =
      let rest = update_proposals-put next rs r w.2 in
      elim (Bool-cases (is_row t.tenant_id t.proposal_id x)) [
        | inl here ↦
            let same : x ≡ r = ground arith in
            subst (λ y. update_proposals t now (x ∷ rs) ≡ put row_id (moved t now y) (x ∷ rs)) same
              (put_head x rs w.1 here (rw same e))
        | inr there ↦
            let f' : find_proposal t.tenant_id t.proposal_id rs ≡ some r = ground arith in
            let other = found_other x r rs f' w.1 in
            put_tail x (moved t now r) rs there other (rest f' e)
      ]
