-- ===== src/Policy/WriteSafety/Event.antt =====
-- `_event` of src/odoo_mcp/policy/write_safety.py: the audit event of one step of a write.
use odoo_mcp.Prelude.{
  ℕ, zero, suc, ◌+◌, ◌/◌, ◌%◌, pos, leb_ℤ, String, Bool, true, false, ◌&&◌, not, Option, none, some,
  List, [], ◌∷◌, text_in, ltb, if◌then◌else◌,
}
use odoo_mcp.Json.{Json, null, bool, num, str, Dict, insert}
use odoo_mcp.Errors.{code_value}
use odoo_mcp.Storage.Models.{AuditEvent}
use odoo_mcp.Policy.WriteSafety.Types.{
  WriteStatus, WriteCommand, WriteSafetyResponse, Request, is_failed, is_unknown,
}
use odoo_mcp.Policy.WriteSafety.Persistence.{
  response_for_persistence, response_mapping_for_persistence, filtered_mapping,
}

abbrev digit : ℕ → String
digit zero = "0"
digit (suc zero) = "1"
digit (suc (suc zero)) = "2"
digit (suc (suc (suc zero))) = "3"
digit (suc (suc (suc (suc zero)))) = "4"
digit (suc (suc (suc (suc (suc zero))))) = "5"
digit (suc (suc (suc (suc (suc (suc zero)))))) = "6"
digit (suc (suc (suc (suc (suc (suc (suc zero))))))) = "7"
digit (suc (suc (suc (suc (suc (suc (suc (suc zero)))))))) = "8"
digit _ = "9"

append_text : String → String → String
append_text String.[] t = t
append_text (String.◌∷◌ c s) t = String.◌∷◌ c (append_text s t)

-- `str(n)` of a number below ten to the power of the fuel.
decimal : ℕ → ℕ → String
unfolding append_text
decimal zero n = ""
decimal (suc fuel) n =
    let upper = decimal fuel (n / 10) in
    if ltb n 10 then digit n else append_text upper (digit (n % 10))

-- `str(snapshot.version)`; a version needs at most n + 1 digits.
unfoldable pub version_text : ℕ → String
unfolding decimal
version_text n = decimal (n + 1) n

abbrev is_succeeded : WriteStatus → Bool
is_succeeded WriteStatus.succeeded = true
is_succeeded _ = false

abbrev is_nonempty : Option String → Bool
is_nonempty none = false
is_nonempty (some String.[]) = false
is_nonempty (some (String.◌∷◌ c s)) = true

-- The `idempotency_state` of the audited payload, from the retained response.
abbrev state_of_response : WriteCommand → Option WriteSafetyResponse → String
state_of_response command none = "not_reserved"
state_of_response command (some r) =
    if is_unknown r.outcome
    then "unknown"
    else (if is_succeeded r.status
        then "succeeded"
        else (if not command.dry_run && is_nonempty command.idempotency_key
            then "failed"
            else "not_reserved"))

unfoldable pub idempotency_state_text : WriteCommand → String → Option WriteSafetyResponse → String
idempotency_state_text command final_status retained =
    if text_in final_status ("attempted" ∷ [])
    then "in_progress"
    else (if text_in final_status ("rejected" ∷ "conflicted" ∷ "previewed" ∷ [])
        then "not_reserved"
        else state_of_response command retained)

abbrev opt_str : Option String → Json
opt_str none = null
opt_str (some s) = str s

unfoldable pub input_payload : WriteCommand → String → Option WriteSafetyResponse → Dict
unfolding idempotency_state_text insert
input_payload command final_status retained = elim command.audit_payload [
  | none ↦ insert "idempotency_key" (opt_str command.idempotency_key) (
      insert "dry_run" (bool command.dry_run)
        (insert "company_id" (num command.company_id) command.request_payload))
  | some d ↦
      insert "idempotency_state" (str (idempotency_state_text command final_status retained))
        (insert "dry_run" (bool command.dry_run) (insert "company_id" (num command.company_id) d))
]

abbrev retained_response : WriteCommand → Option WriteSafetyResponse → Option WriteSafetyResponse
retained_response command none = none
retained_response command (some r) = some (response_for_persistence command r)

abbrev result_of : Request → Option WriteSafetyResponse → Option Dict
result_of q none = none
result_of q (some r) = some (response_mapping_for_persistence q.pydantic q.command r)

abbrev error_code_of : Option WriteSafetyResponse → Option String
error_code_of none = none
error_code_of (some r) =
    if is_failed r.status
    then elim r.error_code [ none ↦ none | some c ↦ some (code_value c) ]
    else none

abbrev error_message_of : Option WriteSafetyResponse → Option String
error_message_of none = none
error_message_of (some r) = if is_failed r.status then r.error_message else none

-- `_event`
unfoldable pub event :
    Request → String → Option WriteSafetyResponse → Option Dict → List String → AuditEvent
unfolding input_payload version_text
event q final_status response proposed_action affected_records =
    let command = q.command in
    record {
      request_id = q.request_id;
      tenant_id = q.binding.tenant_id;
      company_id = if leb_ℤ command.company_id (pos 0) then none else some command.company_id;
      tool_name = q.definition.name;
      tool_version = q.definition.version;
      module_name = q.module_name;
      authenticated_subject = q.binding.authenticated_subject;
      mcp_client = q.binding.mcp_client;
      odoo_db_name = some q.binding.database;
      odoo_user = some q.binding.username;
      odoo_version = some (version_text q.snapshot.version);
      odoo_transport = some q.snapshot.transport;
      input_payload = input_payload command final_status (retained_response command response);
      dry_run = command.dry_run;
      proposed_action = filtered_mapping proposed_action command.retained_proposed_action_keys;
      actual_result = result_of q response;
      affected_odoo_records = affected_records;
      error_code = error_code_of response;
      error_message = error_message_of response;
      final_status = final_status;
      created_at = none;
    }
