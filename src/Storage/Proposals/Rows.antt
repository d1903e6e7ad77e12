-- ===== src/Storage/Proposals/Rows.antt =====
-- Lemmas on the statements of the proposals table.
use odoo_mcp.Prelude.{
  ℕ, ◌<◌, ℤ, pos, negsuc, String, Bool, true, false, ◌≡◌, refl, Option, none, some, List, [], ◌∷◌,
  arith, ◌==◌, any_of, if◌then◌else◌,
}
use odoo_mcp.Storage.Models.{ProposalRecord}
use odoo_mcp.Storage.Proposals.{
  state_eq, has_id, find_proposal, Transition, moved, is_expected, update_proposals, count_expected,
}

abbrev pub same_id : ProposalRecord → ProposalRecord → Bool
same_id r s = s.id == r.id

-- Every id is below the next one, and none occurs twice.
abbrev pub IsNumbered : ℕ → List ProposalRecord → Type 0
IsNumbered next [] = Unit
IsNumbered next (r ∷ rs) = (r.id < next) × (any_of (same_id r) rs ≡ false) × IsNumbered next rs

-- An id is that of one number.
pub has_one_id :
    (id : ℤ) (r s : ProposalRecord) → has_id id r ≡ true → same_id r s ≡ false → has_id id s ≡ false
has_one_id (pos i) r s h n = ground arith
has_one_id (negsuc i) r s h n = refl

module _ (t : Transition) (now : ℕ) where
  has_id-moved : (id : ℤ) (r : ProposalRecord) → has_id id (moved t now r) ≡ has_id id r
  has_id-moved (pos i) r = refl
  has_id-moved (negsuc i) r = refl

  abbrev pub advanced : ProposalRecord → ProposalRecord
  advanced r = if is_expected t r then moved t now r else r

  abbrev pub map_advanced : Option ProposalRecord → Option ProposalRecord
  map_advanced none = none
  map_advanced (some r) = some (advanced r)

  -- A SELECT after the UPDATE finds the same row, updated if the WHERE clause holds of it.
  pub find_proposal-update_proposals :
      (tenant_id : String) (id : ℤ) (rs : List ProposalRecord)
      → find_proposal tenant_id id (update_proposals t now rs)
        ≡ map_advanced (find_proposal tenant_id id rs)
  unfolding find_proposal update_proposals
  find_proposal-update_proposals tenant_id id [] = refl
  find_proposal-update_proposals tenant_id id (r ∷ rs) =
      let rest = find_proposal-update_proposals tenant_id id rs in
      ground (arith, rest, has_id-moved id r)

  same_id-update_proposals :
      (r : ProposalRecord) (rs : List ProposalRecord)
      → any_of (same_id r) (update_proposals t now rs) ≡ any_of (same_id r) rs
  unfolding update_proposals
  same_id-update_proposals r [] = refl
  same_id-update_proposals r (x ∷ rs) = ground (arith, same_id-update_proposals r rs)

  pub update_proposals-IsNumbered :
      (next : ℕ) (rs : List ProposalRecord)
      → IsNumbered next rs
      → IsNumbered next (update_proposals t now rs)
  unfolding update_proposals
  update_proposals-IsNumbered next [] w = tt
  update_proposals-IsNumbered next (x ∷ rs) w =
      ground (arith, update_proposals-IsNumbered next rs, same_id-update_proposals x rs)

  count_expected-none :
      (r : ProposalRecord) (rs : List ProposalRecord)
      → any_of (same_id r) rs ≡ false
      → has_id t.proposal_id r ≡ true
      → count_expected t rs ≡ 0
  unfolding count_expected
  count_expected-none r [] a h = refl
  count_expected-none r (x ∷ rs) a h =
      ground (arith, count_expected-none r rs, has_one_id t.proposal_id r x)

  abbrev count_found : Option ProposalRecord → ℕ
  count_found none = 0
  count_found (some r) = if state_eq r.status t.expected then 1 else 0

  -- The UPDATE changes at most one row: the one that the SELECT finds, in the expected state.
  pub count_expected_lem :
      (next : ℕ) (rs : List ProposalRecord)
      → IsNumbered next rs
      → count_expected t rs ≡ count_found (find_proposal t.tenant_id t.proposal_id rs)
  unfolding count_expected find_proposal
  count_expected_lem next [] w = refl
  count_expected_lem next (x ∷ rs) w =
      ground (arith, count_expected_lem next rs, count_expected-none x rs)
