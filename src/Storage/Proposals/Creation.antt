-- ===== src/Storage/Proposals/Creation.antt =====
-- Proofs about `create` and `get`.
use odoo_mcp.Prelude.{
  ℕ, ◌+◌, pos, leb_ℤ, String, Bool, true, false, ◌&&◌, ◌||◌, not, ◌≡◌, refl, none, some, List, [],
  ◌∷◌, ◌++◌, str_eq, eq_refl, arith, ◌==◌, any_of, is_blank, if◌then◌else◌, Bool-cases, inl, inr,
}
use odoo_mcp.Storage.Models.{ProposalRecord, value_error}
use odoo_mcp.Storage.Database.{Db, ok, err, Fault, healthy, transaction, transaction_induction}
use odoo_mcp.Storage.Proposals.{
  find_proposal, NewProposal, check_proposal, new_proposal, insert_proposal, create_in_transaction,
  create, get,
}
use odoo_mcp.Storage.Proposals.Rows.{IsNumbered, same_id}
use odoo_mcp.Storage.Proposals.States.{HasNumbers}

-- The arguments pass the checks of `create`.
abbrev pub acceptable : NewProposal → Bool
acceptable n =
    not (is_blank n.request_id)
    && (not (is_blank n.tenant_id)
        && (not (leb_ℤ n.company_id (pos 0))
            && (not (is_blank n.tool_name)
                && (not (is_blank n.module_name) && not (is_blank n.proposal_type)))))

pub check_proposal_lem :
    (n : NewProposal) (db : Db)
    → check_proposal n db ≡ (if acceptable n then ok tt else err value_error, db)
unfolding check_proposal
check_proposal_lem n db = ground arith

-- No row has the next id yet.
find_proposal-fresh :
    (tenant_id : String) (next : ℕ) (rs : List ProposalRecord) (x : ProposalRecord)
    → IsNumbered next rs
    → x.id ≡ next
    → find_proposal tenant_id (pos next) (rs ++ x ∷ [])
      ≡ (if str_eq x.tenant_id tenant_id then some x else none)
unfolding find_proposal
find_proposal-fresh tenant_id next [] x w e = ground arith
find_proposal-fresh tenant_id next (r ∷ rs) x w e =
    ground (arith, find_proposal-fresh tenant_id next rs x)

abbrev pub with_created : NewProposal → ℕ → Db → Db
with_created n now db = record db {
  proposals = db.proposals ++ new_proposal n now db.proposal_next ∷ [];
  proposal_next = db.proposal_next + 1;
}

module _ (now : ℕ) (n : NewProposal) (db : Db) where
  pub create_in_transaction_lem :
      HasNumbers db
      → create_in_transaction now n db ≡ (
          if acceptable n
          then (ok (new_proposal n now db.proposal_next), with_created n now db)
          else (err value_error, db))
  unfolding create_in_transaction insert_proposal
  create_in_transaction_lem w = ground (
    arith,
    check_proposal_lem n db,
    eq_refl n.tenant_id,
    find_proposal-fresh n.tenant_id db.proposal_next db.proposals
        (new_proposal n now db.proposal_next) w,
  )

  -- On a numbered table a healthy `create` with acceptable arguments returns the proposed row and leaves it where `get`
  -- finds it: the tenant of the proposal gets it under its id, and any other tenant gets nothing.
  pub create-get :
      (tenant_id : String)
      → HasNumbers db
      → acceptable n ≡ true
      → is_blank tenant_id ≡ false
      → let row = new_proposal n now db.proposal_next in
        let db' = with_created n now db in
        (create healthy now n db ≡ (ok row, db'))
        × (get healthy tenant_id (pos db.proposal_next) db'
            ≡ (ok (if str_eq n.tenant_id tenant_id then some row else none), db'))
  unfolding create get transaction
  create-get tenant_id w good named = (
    ground (arith, check_proposal_lem n db, create_in_transaction_lem w),
    ground (
      arith,
      find_proposal-fresh tenant_id db.proposal_next db.proposals
          (new_proposal n now db.proposal_next) w,
    ),
  )

same_id-append :
    (r x : ProposalRecord) (rs : List ProposalRecord)
    → any_of (same_id r) (rs ++ x ∷ []) ≡ (any_of (same_id r) rs || x.id == r.id)
same_id-append r x [] = ground arith
same_id-append r x (y ∷ rs) = ground (arith, same_id-append r x rs)

append-IsNumbered :
    (next : ℕ) (rs : List ProposalRecord) (x : ProposalRecord)
    → IsNumbered next rs
    → x.id ≡ next
    → IsNumbered (next + 1) (rs ++ x ∷ [])
append-IsNumbered next [] x w e = (omega arith, refl, tt)
append-IsNumbered next (r ∷ rs) x w e =
    ground (arith, append-IsNumbered next rs x, same_id-append r x rs)

create_lem :
    (fault : Fault) (now : ℕ) (n : NewProposal) (db : Db)
    → create fault now n db ≡ (
        if acceptable n
        then transaction fault (create_in_transaction now n) db
        else (err value_error, db))
unfolding create
create_lem fault now n db = ground (arith, check_proposal_lem n db)

-- `create` keeps the ids of the proposals unique and below the next one, whatever its arguments
-- and however its transaction ends.
pub create-HasNumbers :
    (fault : Fault) (now : ℕ) (n : NewProposal) (db : Db)
    → HasNumbers db
    → HasNumbers (create fault now n db).1
create-HasNumbers fault now n db w = elim (Bool-cases (acceptable n)) [
  | inr bad ↦ rw (create_lem, bad) w
  | inl good ↦
      rw (create_lem, good)
        (transaction_induction HasNumbers fault (create_in_transaction now n) db w (
          rw (create_in_transaction_lem now n db w, good)
            (append-IsNumbered db.proposal_next db.proposals (new_proposal n now db.proposal_next) w
              refl)))
]
