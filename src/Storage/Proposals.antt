-- ===== src/Storage/Proposals.antt =====
-- `ProposalRepository` of src/odoo_mcp/storage/repositories.py: proposals and their states.
pub mod Rows
pub mod Arrival
pub mod States
pub mod Moves
pub mod Creation
use odoo_mcp.Prelude.{
  ℕ, ◌+◌, ℤ, pos, negsuc, leb_ℤ, String, Bool, true, false, ◌&&◌, not, Option, none, some, List, [],
  ◌∷◌, ◌++◌, str_eq, is_blank, ◌==◌, if◌then◌else◌,
}
use odoo_mcp.Json.{Dict}
use odoo_mcp.Storage.Models.{
  ProposalState, proposed, executing, executed, failed, unknown, expired, ProposalRecord,
  value_error, proposal_transition,
}
use odoo_mcp.Storage.Database.{
  Db, Action, pure, raise, raise_if, gets, modify, ◌>>=◌, ◌>>◌, Fault, transaction,
}

-- `_TRANSITIONS`
unfoldable pub allowed : ProposalState → ProposalState → Bool
allowed proposed executing = true
allowed proposed expired = true
allowed executing executed = true
allowed executing failed = true
allowed executing unknown = true
allowed _ _ = false

unfoldable pub state_eq : ProposalState → ProposalState → Bool
state_eq proposed proposed = true
state_eq executing executing = true
state_eq executed executed = true
state_eq failed failed = true
state_eq unknown unknown = true
state_eq expired expired = true
state_eq _ _ = false

-- The arguments of `create`.
pub record NewProposal : Type 0 where
  pub request_id : String
  pub tenant_id : String
  pub company_id : ℤ
  pub tool_name : String
  pub module_name : String
  pub proposal_type : String
  pub payload : Dict

unfoldable pub check_proposal : NewProposal → Action (Unit {0})
check_proposal n = do
  raise_if (is_blank n.request_id) value_error
  raise_if (is_blank n.tenant_id) value_error
  raise_if (leb_ℤ n.company_id (pos 0)) value_error
  raise_if (is_blank n.tool_name) value_error
  raise_if (is_blank n.module_name) value_error
  raise_if (is_blank n.proposal_type) value_error

-- The row that the INSERT writes under the id given.
abbrev pub new_proposal : NewProposal → ℕ → ℕ → ProposalRecord
new_proposal n now id = record {
  id = id;
  request_id = n.request_id;
  tenant_id = n.tenant_id;
  company_id = n.company_id;
  tool_name = n.tool_name;
  module_name = n.module_name;
  proposal_type = n.proposal_type;
  payload = n.payload;
  status = proposed;
  executed_at = none;
  erp_record_refs = [];
  created_at = now;
}

abbrev pub has_id : ℤ → ProposalRecord → Bool
has_id (pos i) r = r.id == i
has_id (negsuc _) r = false

abbrev pub is_row : String → ℤ → ProposalRecord → Bool
is_row tenant_id id r = str_eq r.tenant_id tenant_id && has_id id r

-- SELECT * FROM proposals WHERE tenant_id = ? AND id = ?
unfoldable pub find_proposal : String → ℤ → List ProposalRecord → Option ProposalRecord
find_proposal tenant_id id [] = none
find_proposal tenant_id id (r ∷ rs) =
    let rest = find_proposal tenant_id id rs in if is_row tenant_id id r then some r else rest

-- A row that the SELECT must find.
abbrev pub resolved : Option ProposalRecord → Action ProposalRecord
resolved none = raise proposal_transition
resolved (some r) = pure r

unfoldable pub insert_proposal : NewProposal → ℕ → Action (Unit {0})
insert_proposal n now = modify (λ db. record db {
  proposals = db.proposals ++ new_proposal n now db.proposal_next ∷ [];
  proposal_next = db.proposal_next + 1;
})

unfoldable pub create_in_transaction : ℕ → NewProposal → Action ProposalRecord
create_in_transaction now n = do
  check_proposal n
  id ← gets (λ db. db.proposal_next)
  insert_proposal n now
  found ← gets (λ db. find_proposal n.tenant_id (pos id) db.proposals)
  resolved found

unfoldable pub create : Fault → ℕ → NewProposal → Action ProposalRecord
create fault now n = check_proposal n >> transaction fault (create_in_transaction now n)

-- `get`: `transaction` without `write` reads, and has nothing to commit.
unfoldable pub get : Fault → String → ℤ → Action (Option ProposalRecord)
get fault tenant_id id =
    raise_if (is_blank tenant_id) value_error
    >> transaction fault (gets (λ db. find_proposal tenant_id id db.proposals))

-- The arguments of `transition`.
pub record Transition : Type 0 where
  pub tenant_id : String
  pub proposal_id : ℤ
  pub expected : ProposalState
  pub target : ProposalState
  pub erp_record_refs : List String

unfoldable pub executed_time : ProposalState → ℕ → Option ℕ
executed_time executed now = some now
executed_time _ now = none

abbrev pub moved : Transition → ℕ → ProposalRecord → ProposalRecord
moved t now r = record r {
  status = t.target;
  executed_at = executed_time t.target now;
  erp_record_refs = t.erp_record_refs;
}

-- The WHERE clause of the UPDATE.
abbrev pub is_expected : Transition → ProposalRecord → Bool
is_expected t r = is_row t.tenant_id t.proposal_id r && state_eq r.status t.expected

unfoldable pub update_proposals : Transition → ℕ → List ProposalRecord → List ProposalRecord
update_proposals t now [] = []
update_proposals t now (r ∷ rs) =
    (if is_expected t r then moved t now r else r) ∷ update_proposals t now rs

unfoldable pub count_expected : Transition → List ProposalRecord → ℕ
count_expected t [] = 0
count_expected t (r ∷ rs) =
    let rest = count_expected t rs in if is_expected t r then 1 + rest else rest

unfoldable pub transition_body : ℕ → Transition → Action (Option ProposalRecord)
transition_body now t = do
  changed ← gets (λ db. count_expected t db.proposals)
  modify (λ db. record db { proposals = update_proposals t now db.proposals })
  raise_if (not (changed == 1)) proposal_transition
  gets (λ db. find_proposal t.tenant_id t.proposal_id db.proposals)

unfoldable pub transition : Fault → ℕ → Transition → Action ProposalRecord
transition fault now t = do
  raise_if (is_blank t.tenant_id) value_error
  raise_if (not (allowed t.expected t.target)) proposal_transition
  row ← transaction fault (transition_body now t)
  resolved row
