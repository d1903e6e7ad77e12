-- ===== src/Storage/Idempotency.antt =====
-- `IdempotencyRepository` of src/odoo_mcp/storage/repositories.py: reservations of idempotency keys.
pub mod Rows
pub mod Updates
pub mod Owner
pub mod Branches
pub mod Reserve
pub mod Finish
use odoo_mcp.Prelude.{
  ℕ, ◌+◌, ◌*◌, ℤ, pos, leb_ℤ, eqb_ℤ, String, Bool, true, false, ◌&&◌, not, Option, none, some, List,
  [], ◌∷◌, ◌++◌, str_eq, any_of, is_blank, leb, ◌==◌, if◌then◌else◌,
}
use odoo_mcp.Json.{Json, num, obj, Dict, empty, entry}
use odoo_mcp.Storage.Platform.{Platform}
use odoo_mcp.Storage.Models.{
  IdempotencyState, succeeded, failed, unknown, IdempotencyDisposition, reserved, replay,
  IdempotencyRow, IdempotencyDecision, StorageError, value_error, integrity_error, payload_mismatch,
  idempotency_transition,
}
use odoo_mcp.Storage.Database.{
  Db, ok, err, Action, pure, raise, raise_if, gets, modify, ◌>>=◌, ◌>>◌, Fault, transaction,
}

-- 24 hours
abbrev pub ttl : ℕ
ttl = 24 * 3600 * 1000000

-- The columns of UNIQUE (tenant_id, tool_name, idempotency_key).
pub record RowKey : Type 0 where
  pub tenant_id : String
  pub tool_name : String
  pub idempotency_key : String

unfoldable pub matches : RowKey → IdempotencyRow → Bool
matches k r =
    str_eq r.tenant_id k.tenant_id
    && (str_eq r.tool_name k.tool_name && str_eq r.idempotency_key k.idempotency_key)

-- `SELECT * ... WHERE tenant_id = ? AND tool_name = ? AND idempotency_key = ?`, then `fetchone`
unfoldable pub find_row : RowKey → List IdempotencyRow → Option IdempotencyRow
find_row k [] = none
find_row k (r ∷ rs) = if matches k r then some r else find_row k rs

-- `DELETE ... WHERE id = ?`
unfoldable pub delete_id : ℕ → List IdempotencyRow → List IdempotencyRow
delete_id i [] = []
delete_id i (r ∷ rs) = let rest = delete_id i rs in if r.id == i then rest else r ∷ rest

abbrev pub is_in_progress : IdempotencyState → Bool
is_in_progress IdempotencyState.in_progress = true
is_in_progress _ = false

-- `existing_state in {SUCCEEDED, FAILED}`
abbrev pub may_expire : IdempotencyState → Bool
may_expire succeeded = true
may_expire failed = true
may_expire _ = false

abbrev pub is_none : Option Dict → Bool
is_none none = true
is_none (some d) = false

abbrev xor_bool : Bool → Bool → Bool
xor_bool true b = not b
xor_bool false b = b

-- A stored row whose state and response do not fit.
abbrev pub row_invalid : IdempotencyRow → Bool
row_invalid r = xor_bool (is_in_progress r.state) (is_none r.response)

abbrev pub row_expired : ℕ → IdempotencyRow → Bool
row_expired now r = leb r.expires_at now && may_expire r.state

abbrev pub disposition_of : IdempotencyState → IdempotencyDisposition
disposition_of IdempotencyState.in_progress = IdempotencyDisposition.in_progress
disposition_of _ = replay

-- What a call of `reserve_in_transaction` is about, but for the payload.
pub record Reservation : Type 0 where
  pub key : RowKey
  pub open key use *
  pub company_id : ℤ
  pub owner_request_id : String

-- The checks at the head of `reserve_in_transaction` and `finish_in_transaction`.
unfoldable pub check_reservation : Reservation → Action (Unit {0})
check_reservation v = do
  raise_if (is_blank v.tenant_id) value_error
  raise_if (leb_ℤ v.company_id (pos 0)) value_error
  raise_if (is_blank v.tool_name) value_error
  raise_if (is_blank v.idempotency_key) value_error
  raise_if (is_blank v.owner_request_id) value_error

abbrev pub new_row : Reservation → String → ℕ → ℕ → IdempotencyRow
new_row v request_hash now id = record {
  id = id;
  tenant_id = v.tenant_id;
  company_id = v.company_id;
  tool_name = v.tool_name;
  idempotency_key = v.idempotency_key;
  request_hash = request_hash;
  state = IdempotencyState.in_progress;
  owner_request_id = v.owner_request_id;
  response = none;
  expires_at = now + ttl;
  created_at = now;
  updated_at = now;
}

-- The INSERT, which the UNIQUE constraint may refuse, and the decision that follows it.
unfoldable pub insert_row : Reservation → String → ℕ → Action IdempotencyDecision
insert_row v request_hash now db =
    if any_of (matches v.key) db.idempotency_keys then (err integrity_error, db) else (
      ok (record {
        disposition = reserved;
        state = IdempotencyState.in_progress;
        owner_request_id = v.owner_request_id;
        response = none;
        expires_at = now + ttl;
      }),
      record db {
        idempotency_keys =
            db.idempotency_keys ++ new_row v request_hash now db.idempotency_next ∷ [];
        idempotency_next = db.idempotency_next + 1;
      },
    )

-- The decision on a row that is there and is kept.
abbrev pub decision_on : IdempotencyRow → IdempotencyDecision
decision_on r = record {
  disposition = disposition_of r.state;
  state = r.state;
  owner_request_id = r.owner_request_id;
  response = r.response;
  expires_at = r.expires_at;
}

-- An expired final row is deleted and the key reserved anew.
unfoldable pub replace_row : Reservation → String → ℕ → IdempotencyRow → Action IdempotencyDecision
replace_row v request_hash now r = do
  modify (λ db. record db { idempotency_keys = delete_id r.id db.idempotency_keys })
  insert_row v request_hash now

unfoldable pub answer_row : String → IdempotencyRow → Action IdempotencyDecision
answer_row request_hash r = do
  raise_if (not (str_eq r.request_hash request_hash)) payload_mismatch
  pure (decision_on r)

-- `reserve_in_transaction` from the SELECT on, by the row that it found.
unfoldable pub reserve_found :
    Reservation → String → ℕ → Option IdempotencyRow → Action IdempotencyDecision
reserve_found v request_hash now none = insert_row v request_hash now
reserve_found v request_hash now (some r) = do
  raise_if (row_invalid r) idempotency_transition
  elim (row_expired now r) [
    | true ↦ replace_row v request_hash now r
    | false ↦ answer_row request_hash r
  ]

module _ (p : Platform) where
  -- `_request_hash`
  unfoldable pub request_hash : ℤ → Dict → String
  request_hash company_id payload = p.sha256 (
      p.canonical_json
        (obj (entry "company_id" (num company_id) (entry "payload" (obj payload) empty))))

  unfoldable pub reserve_in_transaction : ℕ → Reservation → Dict → Action IdempotencyDecision
  reserve_in_transaction now v payload = do
    check_reservation v
    row ← gets (λ db. find_row v.key db.idempotency_keys)
    reserve_found v (request_hash v.company_id payload) now row

  unfoldable pub reserve : Fault → ℕ → Reservation → Dict → Action IdempotencyDecision
  reserve fault now v payload = transaction fault (reserve_in_transaction now v payload)

-- The WHERE clause of the UPDATE in `finish_in_transaction`.
unfoldable pub owned_by : Reservation → IdempotencyRow → Bool
owned_by v r =
    matches v.key r
    && (eqb_ℤ r.company_id v.company_id
        && (str_eq r.owner_request_id v.owner_request_id && is_in_progress r.state))

abbrev pub finished : IdempotencyState → Dict → ℕ → IdempotencyRow → IdempotencyRow
finished state response now r = record r {
  state = state;
  response = some response;
  updated_at = now;
}

unfoldable pub update_owned :
    Reservation → IdempotencyState → Dict → ℕ → List IdempotencyRow → List IdempotencyRow
update_owned v state response now [] = []
update_owned v state response now (r ∷ rs) =
    (if owned_by v r then finished state response now r else r)
    ∷ update_owned v state response now rs

-- `cursor.rowcount`
unfoldable pub count_owned : Reservation → List IdempotencyRow → ℕ
count_owned v [] = 0
count_owned v (r ∷ rs) = (if owned_by v r then 1 else 0) + count_owned v rs

abbrev with_response : Option Dict → (Dict → Action (Unit {0})) → Action (Unit {0})
with_response none k = raise idempotency_transition
with_response (some d) k = k d

unfoldable pub finish_in_transaction :
    ℕ → Reservation → IdempotencyState → Option Dict → Action (Unit {0})
finish_in_transaction now v state response = do
  check_reservation v
  raise_if (is_in_progress state) idempotency_transition
  with_response response λ d. do
    rowcount ← gets (λ db. count_owned v db.idempotency_keys)
    modify (λ db. record db { idempotency_keys = update_owned v state d now db.idempotency_keys })
    raise_if (not (rowcount == 1)) idempotency_transition

unfoldable pub finish : Fault → ℕ → Reservation → IdempotencyState → Option Dict → Action (Unit {0})
finish fault now v state response = transaction fault (finish_in_transaction now v state response)
