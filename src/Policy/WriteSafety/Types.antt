-- ===== src/Policy/WriteSafety/Types.antt =====
-- The commands, results and callbacks of src/odoo_mcp/policy/write_safety.py, the parts that it reads of
-- the tool definition (src/odoo_mcp/mcp/registry.py), the connection binding
-- (src/odoo_mcp/adapters/odoo/connections.py) and the capability snapshot (src/odoo_mcp/adapters/base.py).
use odoo_mcp.Prelude.{ℕ, ℤ, String, Bool, true, false, ◌&&◌, ◌||◌, not, Option, none, some, List}
use odoo_mcp.Json.{Dict}
use odoo_mcp.Errors.{ErrorCode, OdooMcpError}
use odoo_mcp.Storage.Platform.{Platform}
use odoo_mcp.Storage.Database.{Db, Fault}

pub data WriteStatus : Type 0 where
  preview succeeded needs_input failed : WriteStatus

pub data WriteOutcome : Type 0 where
  not_attempted known unknown : WriteOutcome

pub record WriteCommand : Type 0 where
  pub company_id : ℤ
  pub request_payload : Dict
  pub dry_run : Bool
  pub idempotency_key : Option String
  pub audit_payload : Option Dict
  pub retained_proposed_action_keys : Option (List String)
  pub retained_material_effect_keys : Option (List String)
  pub compact_persistence : Bool

pub record PreparedWrite : Type 0 where
  pub proposed_action : Dict
  pub material_effects : Dict
  pub artifact_markdown : Option String
  pub needs_input : Bool

pub record AppliedWrite : Type 0 where
  pub material_effects : Dict
  pub record_refs : List String
  pub artifact_markdown : Option String

pub record WriteSafetyResponse : Type 0 where
  pub status : WriteStatus
  pub outcome : WriteOutcome
  pub request_id : String
  pub company_id : ℤ
  pub proposed_action : Option Dict
  pub material_effects : Dict
  pub record_refs : List String
  pub artifact_markdown : Option String
  pub error_code : Option ErrorCode
  pub error_message : Option String
  pub remediation_hint : Option String

abbrev pub is_failed : WriteStatus → Bool
is_failed failed = true
is_failed _ = false

abbrev pub is_some {ℓ} : {A : Type ℓ} → Option A → Bool
is_some none = false
is_some (some a) = true

abbrev pub is_unknown : WriteOutcome → Bool
is_unknown unknown = true
is_unknown _ = false

-- `validate_shape`: false where it raises.
unfoldable pub validate_shape : WriteSafetyResponse → Bool
validate_shape r =
    not (
      is_failed r.status
      && (not (is_some r.error_code)
          || (not (is_some r.error_message) || not (is_some r.remediation_hint))))
    && (not (
          not (is_failed r.status)
          && (is_some r.error_code || (is_some r.error_message || is_some r.remediation_hint)))
        && not (is_unknown r.outcome && not (is_failed r.status)))

pub data RiskLevel : Type 0 where
  read propose draft_write confirm_write : RiskLevel

pub record ToolAnnotations : Type 0 where
  pub read_only_hint : Option Bool
  pub destructive_hint : Option Bool
  pub idempotent_hint : Option Bool
  pub open_world_hint : Option Bool

pub record ToolDefinition : Type 0 where
  pub name : String
  pub version : String
  pub risk_level : RiskLevel
  pub required_permission : String
  pub required_capability : Option String
  pub annotations : ToolAnnotations

pub record ConnectionBinding : Type 0 where
  pub tenant_id : String
  pub authenticated_subject : String
  pub mcp_client : String
  pub permissions : List String
  -- the fields of `binding.connection`
  pub database : String
  pub username : String
  pub allowed_company_ids : List ℤ

pub record CapabilitySnapshot : Type 0 where
  pub version : ℕ
  pub transport : String
  pub modules : List (String × Bool)

-- How an awaited callback ends. `wrong_type` is a return value that is no instance of the class;
-- `other` is any exception that no handler names, an `UnknownWriteOutcome` among them.
pub data Outcome (A : Type 0) : Type 0 where
  returned : A → Outcome A
  wrong_type : Outcome A
  cancelled : Outcome A
  odoo_error : OdooMcpError → Outcome A
  known_failure : OdooMcpError → Outcome A
  other : Outcome A

-- While a callback is awaited other tasks may change the tables.
abbrev pub Callback : Type 0 → Type 0
Callback A = Db → Outcome A × Db

pub record Callbacks : Type 0 where
  pub prepare : Callback PreparedWrite
  pub validate_current_state : Callback (Unit {0})
  pub execute : Callback AppliedWrite

-- `model_dump(mode="json")` and `model_validate` of pydantic on `WriteSafetyResponse`, which are not
-- the program's; `none` is a `ValidationError`.
pub record Pydantic : Type 0 where
  pub model_dump : WriteSafetyResponse → Dict
  pub model_validate : Dict → Option WriteSafetyResponse

-- The time of a storage call and what the database does with it.
pub record StorageCall : Type 0 where
  pub fault : Fault
  pub now : ℕ

-- The arguments of `run`, with the libraries below it and the storage calls that it may make.
pub record Request : Type 0 where
  pub platform : Platform
  pub pydantic : Pydantic
  pub binding : ConnectionBinding
  pub definition : ToolDefinition
  pub module_name : String
  pub snapshot : CapabilitySnapshot
  pub command : WriteCommand
  pub callbacks : Callbacks
  pub request_id : String
  pub preflight_error : Option OdooMcpError
  pub on_begin : StorageCall
  pub on_finish : StorageCall
  pub on_append : StorageCall
