-- ===== src/Tests/Runs.antt =====
-- `run` on sample requests.
use odoo_mcp.Prelude.{false, ◌≡◌, refl, [], ◌∷◌, arith, is_blank}
use odoo_mcp.Json.{get, has_key, insert}
use odoo_mcp.Json.Redact.{redact_dict, is_sensitive}
use odoo_mcp.Errors.{parse_code}
use odoo_mcp.Storage.Database.{Db, empty_db, transaction}
use odoo_mcp.Storage.Event.{hash_payload, event_values, stored_event, safe_error_fields}
use odoo_mcp.Storage.Audit.{
  tenant_rows, last_hash, next_record, insert_record, append_in_transaction, append,
}
use odoo_mcp.Storage.Idempotency.{
  matches, find_row, delete_id, check_reservation, insert_row, replace_row, answer_row,
  reserve_found, request_hash, reserve_in_transaction, owned_by, update_owned, count_owned,
  finish_in_transaction,
}
use odoo_mcp.Storage.Execution.{append_if, begin_body, begin, finish_body, finish}
use odoo_mcp.Policy.WriteSafety.Types.{Request}
use odoo_mcp.Policy.WriteSafety.Gate.{write_tool_definition_is_valid, module_available, gate_error}
use odoo_mcp.Policy.WriteSafety.Response.{failure, prepared_response, applied_response}
use odoo_mcp.Policy.WriteSafety.Persistence.{
  filtered_mapping, response_for_persistence, response_mapping_for_persistence,
  restore_persisted_response,
}
use odoo_mcp.Policy.WriteSafety.Event.{event}
use odoo_mcp.Policy.WriteSafety.Steps.{
  prepare, validate, execute, Step, append_or_fail, record_pre_write_failure, finish_after_attempt,
  finish_pre_write_failure, finalize_unknown,
}
use odoo_mcp.Policy.WriteSafety.Run.{
  after_dry_prepare, preview_path, finish_success, after_execute, execute_path, after_validate,
  validate_path, finish_needs_input, after_prepare, prepare_path, replay_path, on_disposition,
  after_begin, begin_path, execution_path, after_gate, run,
}
use odoo_mcp.Policy.WriteSafety.Attempt.{executes}
use odoo_mcp.Policy.WriteSafety.Once.{at_most_once}
use odoo_mcp.Tests.Samples.{request}

-- Everything that a run computes with.
unfoldable pub opened : Request → Db → Step
unfolding run after_gate execution_path begin_path after_begin on_disposition replay_path
    prepare_path after_prepare finish_needs_input validate_path after_validate execute_path
    after_execute finish_success preview_path after_dry_prepare finalize_unknown
    finish_pre_write_failure finish_after_attempt record_pre_write_failure append_or_fail event
    restore_persisted_response response_mapping_for_persistence response_for_persistence
    filtered_mapping applied_response prepared_response failure gate_error module_available
    write_tool_definition_is_valid finish finish_body begin begin_body append_if
    finish_in_transaction count_owned update_owned owned_by reserve_in_transaction request_hash
    reserve_found answer_row replace_row insert_row check_reservation delete_id find_row matches
    append append_in_transaction insert_record next_record last_hash tenant_rows stored_event
    event_values safe_error_fields hash_payload transaction parse_code redact_dict is_sensitive
    insert has_key get is_blank
opened = run

first_run_calls : (run (request "r1" 10) empty_db).calls ≡ prepare ∷ validate ∷ execute ∷ []
unfolding opened
first_run_calls = refl

abbrev first : Db
first = (run (request "r1" 10) empty_db).db

-- The second run with the key of the first makes no call.
second_run_calls : (run (request "r2" 20) first).calls ≡ []
unfolding opened
second_run_calls = refl

at_most_once_example : executes (run (request "r2" 20) first).calls ≡ false
unfolding opened
at_most_once_example =
    at_most_once (request "r1" 10) (request "r2" 20) "key" (λ d. d) empty_db tt refl refl refl refl
      (record { by_prepare = λ d h. h; by_validate = λ d h. h; by_execute = λ d h. h }) (λ d h. h)
      (omega arith) refl
