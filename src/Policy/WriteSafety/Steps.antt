-- ===== src/Policy/WriteSafety/Steps.antt =====
-- The helpers of `WriteSafetyCoordinator.run` that touch the storage. A step takes the tables and
-- returns how the call ends, the tables, and the callbacks that were made, in order.
use odoo_mcp.Prelude.{String, Option, none, some, List, [], ◌∷◌}
use odoo_mcp.Errors.{OdooMcpError}
use odoo_mcp.Storage.Models.{AuditEvent, AuditRecord, IdempotencyState}
use odoo_mcp.Storage.Database.{Db, Result, ok, err}
use odoo_mcp.Storage.Audit.{append}
use odoo_mcp.Storage.Execution.{finish}
use odoo_mcp.Policy.WriteSafety.Types.{
  WriteOutcome, not_attempted, known, unknown, PreparedWrite, WriteSafetyResponse, Request,
}
use odoo_mcp.Policy.WriteSafety.Response.{
  failure, unexpected_pre_write_error, unknown_outcome_error, action_of,
}
use odoo_mcp.Policy.WriteSafety.Persistence.{response_mapping_for_persistence}
use odoo_mcp.Policy.WriteSafety.Event.{event}

-- The callbacks that a run has made.
pub data Call : Type 0 where
  prepare validate execute : Call

-- `run` returns a response, lets a cancellation through, or refuses the tool definition.
pub data Ending : Type 0 where
  responded : WriteSafetyResponse → Ending
  raised_cancelled : Ending
  raised_value_error : Ending

pub record Step : Type 0 where
  pub ending : Ending
  pub db : Db
  pub calls : List Call

abbrev pub stop : Ending → Db → Step
stop ending db = record { ending = ending; db = db; calls = [] }

abbrev pub after_call : Call → Step → Step
after_call c s = record s { calls = c ∷ s.calls }

abbrev pub fail : Request → OdooMcpError → WriteOutcome → Option PreparedWrite → WriteSafetyResponse
fail q error outcome prepared = failure error q.request_id q.command.company_id outcome prepared

-- `_append_or_fail`
abbrev pub or_failed : WriteSafetyResponse → Result AuditRecord → WriteSafetyResponse
or_failed response (ok _) = response
or_failed response (err e) =
    failure unexpected_pre_write_error response.request_id response.company_id not_attempted none

unfoldable pub append_or_fail : Request → AuditEvent → WriteSafetyResponse → Db → Step
append_or_fail q e response db =
    let (r, db') = append q.platform q.on_append.fault q.on_append.now e db in
    stop (responded (or_failed response r)) db'

-- A response that is audited under a final status.
abbrev pub audited : Request → String → WriteSafetyResponse → Db → Step
audited q final_status response db =
    append_or_fail q (event q final_status (some response) none []) response db

-- `_record_pre_write_failure`
unfoldable pub record_pre_write_failure : Request → OdooMcpError → Db → Step
record_pre_write_failure q error db = audited q "failed" (fail q error not_attempted none) db

-- `_finish_after_attempt`, whose exceptions its callers suppress.
unfoldable pub finish_after_attempt :
    Request
    → String
    → IdempotencyState
    → String
    → WriteSafetyResponse
    → Option PreparedWrite
    → Db
    → Db
finish_after_attempt q key state final_status response prepared db =
    (finish q.platform q.on_finish.fault q.on_finish.now
      (event q final_status (some response) (action_of prepared) []) key state
      (some (response_mapping_for_persistence q.pydantic q.command response)) db).1

-- `_finish_pre_write_failure`
unfoldable pub finish_pre_write_failure :
    Request → String → OdooMcpError → Option PreparedWrite → Db → Step
finish_pre_write_failure q key error prepared db =
    let response = fail q error not_attempted prepared in
    stop (responded response)
      (finish_after_attempt q key IdempotencyState.failed "failed" response prepared db)

-- `_finish_known_write_failure`
unfoldable pub finish_known_write_failure :
    Request → String → OdooMcpError → PreparedWrite → Db → Step
finish_known_write_failure q key error prepared db =
    let response = fail q error known (some prepared) in
    stop (responded response)
      (finish_after_attempt q key IdempotencyState.failed "failed" response (some prepared) db)

-- `_finalize_unknown`
unfoldable pub finalize_unknown : Request → String → PreparedWrite → Db → Step
finalize_unknown q key prepared db =
    let response = fail q unknown_outcome_error unknown (some prepared) in
    stop (responded response)
      (finish_after_attempt q key IdempotencyState.unknown "unknown" response (some prepared) db)

-- An `except asyncio.CancelledError` handler records, and raises the cancellation again.
abbrev pub reraise : Step → Step
reraise s = record s { ending = raised_cancelled }
