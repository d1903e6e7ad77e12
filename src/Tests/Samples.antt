-- ===== src/Tests/Samples.antt =====
-- Libraries, requests and tables to run the model on.
use odoo_mcp.Prelude.{ℕ, ◌+◌, pos, String, true, false, Option, none, some, [], ◌∷◌}
use odoo_mcp.Json.{Json, str, num, obj, empty, entry, get}
use odoo_mcp.Storage.Platform.{Platform}
use odoo_mcp.Storage.Database.{healthy}
use odoo_mcp.Policy.WriteSafety.Types.{
  WriteCommand, PreparedWrite, AppliedWrite, draft_write, ToolDefinition, ConnectionBinding,
  CapabilitySnapshot, returned, Pydantic, Request, StorageCall,
}

-- A text for each value that tells the sampled ones apart.
abbrev text_of : Option Json → String
text_of (some (str s)) = s
text_of (some (obj d)) = "payload"
text_of _ = "other"

abbrev print_json : Json → String
print_json (obj d) = text_of (get "final_status" d)
print_json _ = "scalar"

abbrev pub platform : Platform
unfolding get
platform = record {
  casefold = λ s. s;
  canonical_json = print_json;
  sha256 = λ s. s;
  isoformat = λ t. "time";
}

abbrev pub pydantic : Pydantic
pydantic = record { model_dump = λ r. empty; model_validate = λ d. none }

abbrev pub definition : ToolDefinition
definition = record {
  name = "set_draft_payroll_input";
  version = "1.0.0";
  risk_level = draft_write;
  required_permission = "payroll_draft_write";
  required_capability = some "hr_payroll";
  annotations = record {
    read_only_hint = some false;
    destructive_hint = some false;
    idempotent_hint = some true;
    open_world_hint = some true;
  };
}

abbrev pub binding : ConnectionBinding
binding = record {
  tenant_id = "tenant";
  authenticated_subject = "subject";
  mcp_client = "client";
  permissions = "core_read" ∷ "payroll_draft_write" ∷ [];
  database = "db";
  username = "user";
  allowed_company_ids = pos 1 ∷ pos 7 ∷ [];
}

abbrev pub snapshot : CapabilitySnapshot
snapshot = record {
  version = 19;
  transport = "json2";
  modules = ("base", true) ∷ ("hr_payroll", true) ∷ [];
}

abbrev pub command : WriteCommand
command = record {
  company_id = pos 7;
  request_payload = entry "amount" (num (pos 5)) empty;
  dry_run = false;
  idempotency_key = some "key";
  audit_payload = none;
  retained_proposed_action_keys = none;
  retained_material_effect_keys = none;
  compact_persistence = false;
}

abbrev pub prepared : PreparedWrite
prepared = record {
  proposed_action = entry "operation" (str "set") empty;
  material_effects = empty;
  artifact_markdown = none;
  needs_input = false;
}

abbrev pub applied : AppliedWrite
applied = record {
  material_effects = entry "input_id" (num (pos 3)) empty;
  record_refs = "hr.payslip.input,3" ∷ [];
  artifact_markdown = none;
}

abbrev pub at_time : ℕ → StorageCall
at_time t = record { fault = healthy; now = t }

-- A write whose callbacks all return, at a time and with a request id.
abbrev pub request : String → ℕ → Request
request id now = record {
  platform = platform;
  pydantic = pydantic;
  binding = binding;
  definition = definition;
  module_name = "payroll";
  snapshot = snapshot;
  command = command;
  callbacks = record {
    prepare = λ db. (returned prepared, db);
    validate_current_state = λ db. (returned tt, db);
    execute = λ db. (returned applied, db);
  };
  request_id = id;
  preflight_error = none;
  on_begin = at_time now;
  on_finish = at_time (now + 1);
  on_append = at_time (now + 2);
}
