-- ===== src/Storage/Audit.antt =====
-- src/odoo_mcp/storage/audit.py: the append-only chain of hashes of each tenant.
pub mod Chain
pub mod Tamper
use odoo_mcp.Prelude.{
  ℕ, ◌+◌, ℤ, pos, leb_ℤ, String, Bool, true, false, ◌&&◌, Option, none, some, List, [], ◌∷◌, ◌++◌,
  str_eq, any_of, is_blank, length, if◌then◌else◌,
}
use odoo_mcp.Storage.Platform.{Platform}
use odoo_mcp.Storage.Event.{hash_payload, event_values, stored_event, record_values}
use odoo_mcp.Storage.Models.{
  AuditEvent, AuditRecord, AuditVerification, value_error, integrity_error, audit_integrity,
}
use odoo_mcp.Storage.Database.{
  Db, ok, err, Action, pure, raise, raise_if, gets, ◌>>=◌, ◌>>◌, Fault, transaction,
}

-- "0" * 64
abbrev pub genesis_hash : String
genesis_hash = "0000000000000000000000000000000000000000000000000000000000000000"

abbrev pub required_values : AuditEvent → List String
required_values event =
    event.request_id ∷ event.tenant_id ∷ event.tool_name ∷ event.tool_version ∷ event.module_name
    ∷ event.authenticated_subject ∷ event.mcp_client ∷ event.final_status ∷ []

abbrev pub company_invalid : Option ℤ → Bool
company_invalid none = false
company_invalid (some c) = leb_ℤ c (pos 0)

-- `SELECT ... WHERE tenant_id = ? ORDER BY id`
unfoldable pub tenant_rows : String → List AuditRecord → List AuditRecord
tenant_rows tenant [] = []
tenant_rows tenant (r ∷ rs) =
    let rest = tenant_rows tenant rs in if str_eq r.event.tenant_id tenant then r ∷ rest else rest

-- The entry hash of the last row, or the hash given where there is none.
unfoldable pub last_hash : String → List AuditRecord → String
last_hash h [] = h
last_hash h (r ∷ rs) = last_hash r.entry_hash rs

-- The UNIQUE constraint on (tenant_id, entry_hash).
abbrev pub hash_taken : String → List AuditRecord → Bool
hash_taken h rows = any_of (λ r. str_eq r.entry_hash h) rows

unfoldable pub insert_record : AuditRecord → Action AuditRecord
insert_record r db =
    if hash_taken r.entry_hash (tenant_rows r.event.tenant_id db.audit_log)
    then (err integrity_error, db)
    else (ok r, record db { audit_log = db.audit_log ++ r ∷ []; audit_next = db.audit_next + 1 })

-- `event.created_at or utc_now()`
abbrev or_now : Option ℕ → ℕ → ℕ
or_now none now = now
or_now (some t) now = t

module _ (p : Platform) where
  -- The row that the INSERT adds to the rows of the tenant that are there.
  unfoldable pub next_record : AuditEvent → ℕ → ℕ → List AuditRecord → AuditRecord
  unfolding stored_event
  next_record event now id rows =
      let created_at = or_now event.created_at now in
      let previous_hash = last_hash genesis_hash rows in
      record {
        event = stored_event p event created_at;
        id = id;
        previous_hash = previous_hash;
        entry_hash = hash_payload p (event_values p event previous_hash created_at true);
      }

  -- `append_in_transaction` at the time `now`
  unfoldable pub append_in_transaction : ℕ → AuditEvent → Action AuditRecord
  unfolding insert_record
  append_in_transaction now event = do
    raise_if (any_of is_blank (required_values event)) value_error
    raise_if (company_invalid event.company_id) value_error
    r ← gets (λ db. next_record event now db.audit_next (tenant_rows event.tenant_id db.audit_log))
    insert_record r

  unfoldable pub append : Fault → ℕ → AuditEvent → Action AuditRecord
  append fault now event = transaction fault (append_in_transaction now event)

  -- The loop of `verify_chain`: `none` where it raises, and the last hash at the end.
  unfoldable pub check_chain : String → List AuditRecord → Option String
  check_chain expected_previous [] = some expected_previous
  check_chain expected_previous (r ∷ rs) =
      let rest = check_chain r.entry_hash rs in
      if str_eq r.previous_hash expected_previous
        && str_eq (hash_payload p (record_values p r)) r.entry_hash
      then rest
      else none

  unfoldable pub verify_chain : String → Action AuditVerification
  verify_chain tenant_id = do
    raise_if (is_blank tenant_id) value_error
    records ← gets (λ db. tenant_rows tenant_id db.audit_log)
    elim (check_chain genesis_hash records) [
      | none ↦ raise audit_integrity
      | some h ↦
          pure (record { tenant_id = tenant_id; entry_count = length records; last_hash = h })
    ]
