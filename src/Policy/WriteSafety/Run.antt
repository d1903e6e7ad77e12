-- ===== src/Policy/WriteSafety/Run.antt =====
-- `WriteSafetyCoordinator.run` of src/odoo_mcp/policy/write_safety.py, phase by phase.
use odoo_mcp.Prelude.{String, Option, none, some, [], is_blank, if◌then◌else◌}
use odoo_mcp.Json.{Dict, entry, str, empty}
use odoo_mcp.Errors.{
  OdooMcpError, execution_not_explicit, idempotency_key_payload_mismatch,
  concurrent_operation_in_progress,
}
use odoo_mcp.Storage.Models.{
  IdempotencyState, IdempotencyDisposition, IdempotencyDecision, reserved, replay, payload_mismatch,
}
use odoo_mcp.Storage.Database.{Db, Result, ok, err}
use odoo_mcp.Storage.Execution.{begin, finish}
use odoo_mcp.Policy.WriteSafety.Types.{
  not_attempted, unknown, PreparedWrite, AppliedWrite, WriteSafetyResponse, RiskLevel, read,
  propose, draft_write, confirm_write, Outcome, returned, wrong_type, cancelled, odoo_error,
  known_failure, Request,
}
use odoo_mcp.Policy.WriteSafety.Gate.{write_tool_definition_is_valid, gate_error}
use odoo_mcp.Policy.WriteSafety.Response.{
  prepared_response, applied_response, unexpected_pre_write_error, cancelled_pre_write_error,
  unknown_outcome_error,
}
use odoo_mcp.Policy.WriteSafety.Persistence.{
  response_mapping_for_persistence, restore_persisted_response,
}
use odoo_mcp.Policy.WriteSafety.Event.{event}
use odoo_mcp.Policy.WriteSafety.Steps.{
  prepare, validate, execute, Ending, responded, raised_value_error, Step, stop, after_call, fail,
  audited, record_pre_write_failure, finish_after_attempt, finish_pre_write_failure,
  finish_known_write_failure, finalize_unknown, reraise,
}

-- The `if command.dry_run` block, once `prepare` has ended.
unfoldable pub after_dry_prepare : Request → Outcome PreparedWrite → Db → Step
after_dry_prepare q (returned prepared) db =
    audited q (if prepared.needs_input then "needs_input" else "previewed")
      (prepared_response prepared q.request_id q.command.company_id) db
after_dry_prepare q cancelled db = reraise (record_pre_write_failure q cancelled_pre_write_error db)
after_dry_prepare q (odoo_error e) db = record_pre_write_failure q e db
after_dry_prepare q _ db = record_pre_write_failure q unexpected_pre_write_error db

unfoldable pub preview_path : Request → Db → Step
preview_path q db =
    let (o, db') = q.callbacks.prepare db in after_call prepare (after_dry_prepare q o db')

-- The final block: the outcome of a write is stored before it is reported.
abbrev pub reported : Request → PreparedWrite → WriteSafetyResponse → Result (Unit {0}) → Ending
reported q prepared response (ok _) = responded response
reported q prepared response (err e) =
    responded (fail q unknown_outcome_error unknown (some prepared))

unfoldable pub finish_success : Request → String → PreparedWrite → AppliedWrite → Db → Step
finish_success q key prepared applied db =
    let response = applied_response prepared applied q.request_id q.command.company_id in
    let (r, db') =
      finish q.platform q.on_finish.fault q.on_finish.now
        (event q "succeeded" (some response) (some prepared.proposed_action) applied.record_refs)
        key IdempotencyState.succeeded
        (some (response_mapping_for_persistence q.pydantic q.command response)) db in
    stop (reported q prepared response r) db'

unfoldable pub after_execute : Request → String → PreparedWrite → Outcome AppliedWrite → Db → Step
after_execute q key prepared (returned applied) db = finish_success q key prepared applied db
after_execute q key prepared cancelled db = reraise (finalize_unknown q key prepared db)
after_execute q key prepared (known_failure e) db = finish_known_write_failure q key e prepared db
after_execute q key prepared _ db = finalize_unknown q key prepared db

unfoldable pub execute_path : Request → String → PreparedWrite → Db → Step
execute_path q key prepared db =
    let (o, db') = q.callbacks.execute db in after_call execute (after_execute q key prepared o db')

-- The value that `validate_current_state` returns is not looked at.
unfoldable pub after_validate : Request → String → PreparedWrite → Outcome (Unit {0}) → Db → Step
after_validate q key prepared (returned _) db = execute_path q key prepared db
after_validate q key prepared wrong_type db = execute_path q key prepared db
after_validate q key prepared cancelled db =
    reraise (finish_pre_write_failure q key cancelled_pre_write_error (some prepared) db)
after_validate q key prepared (odoo_error e) db =
    finish_pre_write_failure q key e (some prepared) db
after_validate q key prepared _ db =
    finish_pre_write_failure q key unexpected_pre_write_error (some prepared) db

unfoldable pub validate_path : Request → String → PreparedWrite → Db → Step
validate_path q key prepared db =
    let (o, db') = q.callbacks.validate_current_state db in
    after_call validate (after_validate q key prepared o db')

-- `if prepared.needs_input`
unfoldable pub finish_needs_input : Request → String → PreparedWrite → Db → Step
finish_needs_input q key prepared db =
    let response = prepared_response prepared q.request_id q.command.company_id in
    stop (responded response)
      (finish_after_attempt q key IdempotencyState.failed "needs_input" response (some prepared) db)

unfoldable pub after_prepare : Request → String → Outcome PreparedWrite → Db → Step
after_prepare q key (returned prepared) db =
    if prepared.needs_input
    then finish_needs_input q key prepared db
    else validate_path q key prepared db
after_prepare q key cancelled db =
    reraise (finish_pre_write_failure q key cancelled_pre_write_error none db)
after_prepare q key (odoo_error e) db = finish_pre_write_failure q key e none db
after_prepare q key _ db = finish_pre_write_failure q key unexpected_pre_write_error none db

unfoldable pub prepare_path : Request → String → Db → Step
prepare_path q key db =
    let (o, db') = q.callbacks.prepare db in after_call prepare (after_prepare q key o db')

abbrev pub concurrent_error : OdooMcpError
concurrent_error = record {
  code = concurrent_operation_in_progress;
  safe_message = "An identical write operation is already in progress.";
  remediation_hint = "Wait for recovery or replay the same request later.";
}

abbrev pub mismatch_error : OdooMcpError
mismatch_error = record {
  code = idempotency_key_payload_mismatch;
  safe_message = "The idempotency key was already used for a different request.";
  remediation_hint = "Use the original payload or submit a new idempotency key.";
}

abbrev pub not_explicit_error : OdooMcpError
not_explicit_error = record {
  code = execution_not_explicit;
  safe_message = "Execution requires an explicit non-empty idempotency key.";
  remediation_hint = "Submit dry_run false with a stable idempotency key.";
}

unfoldable pub replay_path : Request → Option WriteSafetyResponse → Db → Step
replay_path q none db = stop (responded (fail q unexpected_pre_write_error not_attempted none)) db
replay_path q (some response) db = audited q "replayed" response db

unfoldable pub on_disposition :
    Request → String → IdempotencyDecision → IdempotencyDisposition → Db → Step
on_disposition q key decision IdempotencyDisposition.in_progress db =
    audited q "conflicted" (fail q concurrent_error not_attempted none) db
on_disposition q key decision replay db =
    replay_path q (restore_persisted_response q.pydantic q.command decision.response) db
on_disposition q key decision reserved db = prepare_path q key db

unfoldable pub after_begin : Request → String → Result IdempotencyDecision → Db → Step
after_begin q key (err payload_mismatch) db =
    audited q "conflicted" (fail q mismatch_error not_attempted none) db
after_begin q key (err _) db =
    stop (responded (fail q unexpected_pre_write_error not_attempted none)) db
after_begin q key (ok decision) db = on_disposition q key decision decision.disposition db

abbrev risk_value : RiskLevel → String
risk_value read = "read"
risk_value propose = "propose"
risk_value draft_write = "draft_write"
risk_value confirm_write = "confirm_write"

abbrev pub attempt_action : Request → Dict
attempt_action q =
    entry "tool" (str q.definition.name)
      (entry "risk_level" (str (risk_value q.definition.risk_level)) empty)

unfoldable pub begin_path : Request → String → Db → Step
begin_path q key db =
    let (r, db') =
      begin q.platform q.on_begin.fault q.on_begin.now
        (event q "attempted" none (some (attempt_action q)) []) key q.command.request_payload db in
    after_begin q key r db'

-- Execution asks for a key that is not blank.
unfoldable pub execution_path : Request → Option String → Db → Step
execution_path q none db = audited q "rejected" (fail q not_explicit_error not_attempted none) db
execution_path q (some key) db =
    if is_blank key
    then audited q "rejected" (fail q not_explicit_error not_attempted none) db
    else begin_path q key db

-- `preflight_error or self._gate_error(...)`
abbrev pub gate : Request → Option OdooMcpError
gate q = elim q.preflight_error [
  | none ↦ gate_error q.binding q.definition q.snapshot q.command
  | some e ↦ some e
]

unfoldable pub after_gate : Request → Option OdooMcpError → Db → Step
after_gate q (some e) db = audited q "rejected" (fail q e not_attempted none) db
after_gate q none db =
    if q.command.dry_run then preview_path q db else execution_path q q.command.idempotency_key db

unfoldable pub run : Request → Db → Step
run q db =
    if write_tool_definition_is_valid q.definition
    then after_gate q (gate q) db
    else stop raised_value_error db
