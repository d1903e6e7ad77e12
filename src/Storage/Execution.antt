-- ===== src/Storage/Execution.antt =====
-- `ExecutionJournal` of src/odoo_mcp/storage/execution.py: an idempotency state and its audit event in
-- one transaction.
pub mod Atomic
pub mod Grant
pub mod Record
use odoo_mcp.Prelude.{ℕ, ℤ, String, Bool, true, false, Option, none, some}
use odoo_mcp.Json.{Dict}
use odoo_mcp.Storage.Platform.{Platform}
use odoo_mcp.Storage.Models.{
  AuditEvent, AuditRecord, IdempotencyState, IdempotencyDisposition, reserved, IdempotencyDecision,
  value_error,
}
use odoo_mcp.Storage.Database.{Action, pure, raise, ◌>>=◌, ◌>>◌, Fault, transaction}
use odoo_mcp.Storage.Audit.{append_in_transaction}
use odoo_mcp.Storage.Idempotency.{Reservation, reserve_in_transaction, finish_in_transaction}

-- The reservation that an event and a key stand for.
abbrev pub reservation_of : AuditEvent → ℤ → String → Reservation
reservation_of event company_id key = record {
  key = record { tenant_id = event.tenant_id; tool_name = event.tool_name; idempotency_key = key };
  company_id = company_id;
  owner_request_id = event.request_id;
}

abbrev pub is_reserved : IdempotencyDisposition → Bool
is_reserved reserved = true
is_reserved _ = false

module _ (p : Platform) where
  -- Only a new reservation is an attempt, which is audited in the same transaction.
  unfoldable pub append_if :
      Bool → ℕ → AuditEvent → IdempotencyDecision → Action IdempotencyDecision
  append_if true now event decision = append_in_transaction p now event >> pure decision
  append_if false now event decision = pure decision

  unfoldable pub begin_body : ℕ → AuditEvent → Reservation → Dict → Action IdempotencyDecision
  begin_body now event v payload = do
    decision ← reserve_in_transaction p now v payload
    append_if (is_reserved decision.disposition) now event decision

  abbrev pub begin_for :
      Option ℤ → Fault → ℕ → AuditEvent → String → Dict → Action IdempotencyDecision
  begin_for none fault now event key payload = raise value_error
  begin_for (some c) fault now event key payload =
      transaction fault (begin_body now event (reservation_of event c key) payload)

  -- `ExecutionJournal.begin` at the time `now`
  unfoldable pub begin : Fault → ℕ → AuditEvent → String → Dict → Action IdempotencyDecision
  begin fault now event key payload = begin_for event.company_id fault now event key payload

  unfoldable pub finish_body :
      ℕ → AuditEvent → Reservation → IdempotencyState → Option Dict → Action (Unit {0})
  finish_body now event v state response = do
    finish_in_transaction now v state response
    append_in_transaction p now event
    pure tt

  abbrev pub finish_for :
      Option ℤ
      → Fault
      → ℕ
      → AuditEvent
      → String
      → IdempotencyState
      → Option Dict
      → Action (Unit {0})
  finish_for none fault now event key state response = raise value_error
  finish_for (some c) fault now event key state response =
      transaction fault (finish_body now event (reservation_of event c key) state response)

  -- `ExecutionJournal.finish` at the time `now`
  unfoldable pub finish :
      Fault → ℕ → AuditEvent → String → IdempotencyState → Option Dict → Action (Unit {0})
  finish fault now event key state response =
      finish_for event.company_id fault now event key state response
