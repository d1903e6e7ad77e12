-- ===== src/Storage/Models.antt =====
-- The typed records of src/odoo_mcp/storage/models.py, the rows of the tables that
-- src/odoo_mcp/storage/migrations.py creates, and the failures of src/odoo_mcp/storage/errors.py.
-- A time is its number of microseconds since the epoch; the text columns that hold one hold that
-- instant. A JSON column holds the value that its text stands for.
use odoo_mcp.Prelude.{ℕ, ℤ, String, Bool, Option, List}
use odoo_mcp.Json.{Dict}

pub data ProposalState : Type 0 where
  proposed executing executed failed unknown expired : ProposalState

pub data IdempotencyState : Type 0 where
  in_progress succeeded failed unknown : IdempotencyState

pub data IdempotencyDisposition : Type 0 where
  reserved in_progress replay : IdempotencyDisposition

pub record AuditEvent : Type 0 where
  pub request_id : String
  pub tenant_id : String
  pub company_id : Option ℤ
  pub tool_name : String
  pub tool_version : String
  pub module_name : String
  pub authenticated_subject : String
  pub mcp_client : String
  pub odoo_db_name : Option String
  pub odoo_user : Option String
  pub odoo_version : Option String
  pub odoo_transport : Option String
  pub input_payload : Dict
  pub dry_run : Bool
  pub proposed_action : Option Dict
  pub actual_result : Option Dict
  pub affected_odoo_records : List String
  pub error_code : Option String
  pub error_message : Option String
  pub final_status : String
  pub created_at : Option ℕ

pub record AuditRecord : Type 0 where
  pub event : AuditEvent
  pub id : ℕ
  pub previous_hash : String
  pub entry_hash : String

pub record AuditVerification : Type 0 where
  pub tenant_id : String
  pub entry_count : ℕ
  pub last_hash : String

pub record ProposalRecord : Type 0 where
  pub id : ℕ
  pub request_id : String
  pub tenant_id : String
  pub company_id : ℤ
  pub tool_name : String
  pub module_name : String
  pub proposal_type : String
  pub payload : Dict
  pub status : ProposalState
  pub executed_at : Option ℕ
  pub erp_record_refs : List String
  pub created_at : ℕ

pub record ArtifactRecord : Type 0 where
  pub id : ℕ
  pub request_id : String
  pub tenant_id : String
  pub company_id : ℤ
  pub tool_name : String
  pub module_name : String
  pub artifact_type : String
  pub artifact_format : String
  pub content : String
  pub created_at : ℕ

pub record IdempotencyRow : Type 0 where
  pub id : ℕ
  pub tenant_id : String
  pub company_id : ℤ
  pub tool_name : String
  pub idempotency_key : String
  pub request_hash : String
  pub state : IdempotencyState
  pub owner_request_id : String
  pub response : Option Dict
  pub expires_at : ℕ
  pub created_at : ℕ
  pub updated_at : ℕ

pub record IdempotencyDecision : Type 0 where
  pub disposition : IdempotencyDisposition
  pub state : IdempotencyState
  pub owner_request_id : String
  pub response : Option Dict
  pub expires_at : ℕ

-- The exceptions that the storage raises. `integrity_error` is a violated UNIQUE constraint and
-- `database_error` a failure of the database itself.
pub data StorageError : Type 0 where
  value_error integrity_error database_error : StorageError
  audit_integrity proposal_transition runtime_error : StorageError
  payload_mismatch idempotency_transition : StorageError
