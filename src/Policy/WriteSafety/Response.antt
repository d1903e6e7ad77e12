-- ===== src/Policy/WriteSafety/Response.antt =====
-- The construction of the responses of src/odoo_mcp/policy/write_safety.py.
use odoo_mcp.Prelude.{ℤ, String, Option, none, some, [], if◌then◌else◌}
use odoo_mcp.Json.{Dict, empty}
use odoo_mcp.Errors.{OdooMcpError, unknown_error}
use odoo_mcp.Policy.WriteSafety.Types.{
  preview, succeeded, needs_input, failed, WriteOutcome, not_attempted, known, PreparedWrite,
  AppliedWrite, WriteSafetyResponse,
}

abbrev pub action_of : Option PreparedWrite → Option Dict
action_of none = none
action_of (some w) = some w.proposed_action

abbrev pub effects_of : Option PreparedWrite → Dict
effects_of none = empty
effects_of (some w) = w.material_effects

abbrev pub artifact_of : Option PreparedWrite → Option String
artifact_of none = none
artifact_of (some w) = w.artifact_markdown

-- `_failure`
unfoldable pub failure :
    OdooMcpError → String → ℤ → WriteOutcome → Option PreparedWrite → WriteSafetyResponse
failure error request_id company_id outcome prepared = record {
  status = failed;
  outcome = outcome;
  request_id = request_id;
  company_id = company_id;
  proposed_action = action_of prepared;
  material_effects = effects_of prepared;
  record_refs = [];
  artifact_markdown = artifact_of prepared;
  error_code = some error.code;
  error_message = some error.safe_message;
  remediation_hint = some error.remediation_hint;
}

-- `_prepared_response`
unfoldable pub prepared_response : PreparedWrite → String → ℤ → WriteSafetyResponse
prepared_response prepared request_id company_id = record {
  status = if prepared.needs_input then needs_input else preview;
  outcome = not_attempted;
  request_id = request_id;
  company_id = company_id;
  proposed_action = some prepared.proposed_action;
  material_effects = prepared.material_effects;
  record_refs = [];
  artifact_markdown = prepared.artifact_markdown;
  error_code = none;
  error_message = none;
  remediation_hint = none;
}

-- `a or b` on optional texts, where the empty text counts as false.
abbrev or_text : Option String → Option String → Option String
or_text none b = b
or_text (some String.[]) b = b
or_text (some (String.◌∷◌ c s)) b = some (String.◌∷◌ c s)

-- The response that `run` builds once the execute callback has returned.
unfoldable pub applied_response : PreparedWrite → AppliedWrite → String → ℤ → WriteSafetyResponse
applied_response prepared applied request_id company_id = record {
  status = succeeded;
  outcome = known;
  request_id = request_id;
  company_id = company_id;
  proposed_action = some prepared.proposed_action;
  material_effects = applied.material_effects;
  record_refs = applied.record_refs;
  artifact_markdown = or_text applied.artifact_markdown prepared.artifact_markdown;
  error_code = none;
  error_message = none;
  remediation_hint = none;
}

abbrev pub unexpected_pre_write_error : OdooMcpError
unexpected_pre_write_error = record {
  code = unknown_error;
  safe_message = "The write request failed before Odoo was changed.";
  remediation_hint = "Correct the request or contact the service operator before retrying.";
}

abbrev pub cancelled_pre_write_error : OdooMcpError
cancelled_pre_write_error = record {
  code = unknown_error;
  safe_message = "The write request was cancelled before Odoo was changed.";
  remediation_hint =
      "Submit a new request with a new idempotency key if execution is still required.";
}

abbrev pub unknown_outcome_error : OdooMcpError
unknown_outcome_error = record {
  code = unknown_error;
  safe_message = "The operation outcome is unknown and requires recovery.";
  remediation_hint =
      "Do not retry with a new key; inspect the target system and recover this request.";
}
