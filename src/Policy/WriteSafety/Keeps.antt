-- ===== src/Policy/WriteSafety/Keeps.antt =====
-- Invariants of the tables across `run`, from those across its storage calls and callbacks.
use odoo_mcp.Prelude.{String, Option, none, some, is_blank, if_induction}
use odoo_mcp.Json.{Dict}
use odoo_mcp.Errors.{OdooMcpError}
use odoo_mcp.Storage.Models.{
  AuditEvent, IdempotencyState, IdempotencyDisposition, IdempotencyDecision, reserved, replay,
  payload_mismatch,
}
use odoo_mcp.Storage.Database.{Db, Result, ok, err}
use odoo_mcp.Storage.Audit.{append}
use odoo_mcp.Storage.Execution.{begin, finish}
use odoo_mcp.Policy.WriteSafety.Types.{
  PreparedWrite, AppliedWrite, WriteSafetyResponse, Callback, Outcome, returned, wrong_type,
  known_failure, Request,
}
use odoo_mcp.Policy.WriteSafety.Gate.{write_tool_definition_is_valid}
use odoo_mcp.Policy.WriteSafety.Steps.{
  Step, append_or_fail, record_pre_write_failure, finish_after_attempt, finish_pre_write_failure,
  finish_known_write_failure, finalize_unknown,
}
use odoo_mcp.Policy.WriteSafety.Run.{
  after_dry_prepare, preview_path, finish_success, after_execute, execute_path, after_validate,
  validate_path, finish_needs_input, after_prepare, prepare_path, replay_path, on_disposition,
  after_begin, begin_path, execution_path, after_gate, run, gate,
}

-- A callback and the tasks that run while it is awaited keep `P`.
abbrev pub CallbackKeeps : {A : Type 0} → (Db → Type 0) → Callback A → Type 0
CallbackKeeps P callback = (db : Db) → P db → P (callback db).1

pub record Keeps (P : Db → Type 0) (q : Request) : Type 0 where
  pub by_append :
      (e : AuditEvent) (db : Db)
      → P db
      → P (append q.platform q.on_append.fault q.on_append.now e db).1
  pub by_finish :
      (e : AuditEvent) (key : String) (s : IdempotencyState) (o : Option Dict) (db : Db)
      → P db
      → P (finish q.platform q.on_finish.fault q.on_finish.now e key s o db).1
  pub by_prepare : CallbackKeeps P q.callbacks.prepare
  pub by_validate : CallbackKeeps P q.callbacks.validate_current_state
  pub by_execute : CallbackKeeps P q.callbacks.execute

module _ {P : Db → Type 0} (q : Request) (keeps : Keeps P q) where
  append_or_fail-keeps :
      (e : AuditEvent) (r : WriteSafetyResponse) (db : Db) → P db → P (append_or_fail q e r db).db
  unfolding append_or_fail
  append_or_fail-keeps e r db h = keeps.by_append e db h

  record_pre_write_failure-keeps :
      (e : OdooMcpError) (db : Db) → P db → P (record_pre_write_failure q e db).db
  unfolding record_pre_write_failure
  record_pre_write_failure-keeps e db h = append_or_fail-keeps _ _ db h

  finish_after_attempt-keeps :
      (key : String) (s : IdempotencyState) (status : String) (r : WriteSafetyResponse)
      (w : Option PreparedWrite) (db : Db)
      → P db
      → P (finish_after_attempt q key s status r w db)
  unfolding finish_after_attempt
  finish_after_attempt-keeps key s status r w db h = keeps.by_finish _ key s _ db h

  finish_pre_write_failure-keeps :
      (key : String) (e : OdooMcpError) (w : Option PreparedWrite) (db : Db)
      → P db
      → P (finish_pre_write_failure q key e w db).db
  unfolding finish_pre_write_failure
  finish_pre_write_failure-keeps key e w db h = finish_after_attempt-keeps key _ _ _ w db h

  finalize_unknown-keeps :
      (key : String) (w : PreparedWrite) (db : Db) → P db → P (finalize_unknown q key w db).db
  unfolding finalize_unknown
  finalize_unknown-keeps key w db h = finish_after_attempt-keeps key _ _ _ (some w) db h

  after_dry_prepare-keeps :
      (o : Outcome PreparedWrite) (db : Db) → P db → P (after_dry_prepare q o db).db
  unfolding after_dry_prepare
  after_dry_prepare-keeps (returned w) db h = append_or_fail-keeps _ _ db h
  after_dry_prepare-keeps _ db h = record_pre_write_failure-keeps _ db h

  after_execute-keeps :
      (key : String) (w : PreparedWrite) (o : Outcome AppliedWrite) (db : Db)
      → P db
      → P (after_execute q key w o db).db
  unfolding after_execute finish_success finish_known_write_failure
  after_execute-keeps key w (returned a) db h = keeps.by_finish _ key _ _ db h
  after_execute-keeps key w (known_failure e) db h =
      finish_after_attempt-keeps key _ _ _ (some w) db h
  after_execute-keeps key w _ db h = finalize_unknown-keeps key w db h

  execute_path-keeps :
      (key : String) (w : PreparedWrite) (db : Db) → P db → P (execute_path q key w db).db
  unfolding execute_path
  execute_path-keeps key w db h =
      after_execute-keeps key w (q.callbacks.execute db).0 _ (keeps.by_execute db h)

  after_validate-keeps :
      (key : String) (w : PreparedWrite) (o : Outcome (Unit {0})) (db : Db)
      → P db
      → P (after_validate q key w o db).db
  unfolding after_validate
  after_validate-keeps key w (returned _) db h = execute_path-keeps key w db h
  after_validate-keeps key w wrong_type db h = execute_path-keeps key w db h
  after_validate-keeps key w _ db h = finish_pre_write_failure-keeps key _ (some w) db h

  validate_path-keeps :
      (key : String) (w : PreparedWrite) (db : Db) → P db → P (validate_path q key w db).db
  unfolding validate_path
  validate_path-keeps key w db h =
      after_validate-keeps key w (q.callbacks.validate_current_state db).0 _
        (keeps.by_validate db h)

  after_prepare-keeps :
      (key : String) (o : Outcome PreparedWrite) (db : Db) → P db → P (after_prepare q key o db).db
  unfolding after_prepare finish_needs_input
  after_prepare-keeps key (returned w) db h =
      if_induction (λ s. P s.db) w.needs_input (finish_needs_input q key w db)
        (validate_path q key w db) (λ _. finish_after_attempt-keeps key _ _ _ (some w) db h)
        (λ _. validate_path-keeps key w db h)
  after_prepare-keeps key _ db h = finish_pre_write_failure-keeps key _ none db h

  pub prepare_path-keeps : (key : String) (db : Db) → P db → P (prepare_path q key db).db
  unfolding prepare_path
  prepare_path-keeps key db h =
      after_prepare-keeps key (q.callbacks.prepare db).0 _ (keeps.by_prepare db h)

  replay_path-keeps : (o : Option WriteSafetyResponse) (db : Db) → P db → P (replay_path q o db).db
  unfolding replay_path
  replay_path-keeps none db h = h
  replay_path-keeps (some r) db h = append_or_fail-keeps _ _ db h

  on_disposition-keeps :
      (key : String) (d : IdempotencyDecision) (x : IdempotencyDisposition) (db : Db)
      → P db
      → P (on_disposition q key d x db).db
  unfolding on_disposition
  on_disposition-keeps key d IdempotencyDisposition.in_progress db h = append_or_fail-keeps _ _ db h
  on_disposition-keeps key d replay db h = replay_path-keeps _ db h
  on_disposition-keeps key d reserved db h = prepare_path-keeps key db h

  after_begin-keeps :
      (key : String) (r : Result IdempotencyDecision) (db : Db)
      → P db
      → P (after_begin q key r db).db
  unfolding after_begin
  after_begin-keeps key (err payload_mismatch) db h = append_or_fail-keeps _ _ db h
  after_begin-keeps key (err _) db h = h
  after_begin-keeps key (ok d) db h = on_disposition-keeps key d d.disposition db h

module _ {P : Db → Type 0} (q : Request) (keeps : Keeps P q)
    (by_begin : (e : AuditEvent) (key : String) (payload : Dict) (db : Db)
      → P db
      → P (begin q.platform q.on_begin.fault q.on_begin.now e key payload db).1) where
  begin_path-keeps : (key : String) (db : Db) → P db → P (begin_path q key db).db
  unfolding begin_path
  begin_path-keeps key db h = after_begin-keeps q keeps key _ _ (by_begin _ key _ db h)

  execution_path-keeps : (key : Option String) (db : Db) → P db → P (execution_path q key db).db
  unfolding execution_path
  execution_path-keeps none db h = append_or_fail-keeps q keeps _ _ db h
  execution_path-keeps (some key) db h =
      if_induction (λ s. P s.db) (is_blank key) _ (begin_path q key db)
        (λ _. append_or_fail-keeps q keeps _ _ db h) (λ _. begin_path-keeps key db h)

  after_gate-keeps : (o : Option OdooMcpError) (db : Db) → P db → P (after_gate q o db).db
  unfolding after_gate preview_path
  after_gate-keeps (some e) db h = append_or_fail-keeps q keeps _ _ db h
  after_gate-keeps none db h =
      if_induction (λ s. P s.db) q.command.dry_run (preview_path q db)
        (execution_path q q.command.idempotency_key db)
        (λ _. after_dry_prepare-keeps q keeps (q.callbacks.prepare db).0 _ (keeps.by_prepare db h))
        (λ _. execution_path-keeps q.command.idempotency_key db h)

  pub run-keeps : (db : Db) → P db → P (run q db).db
  unfolding run
  run-keeps db h =
      if_induction {A = Step} (λ s. P s.db) (write_tool_definition_is_valid q.definition) _ _
        (λ _. after_gate-keeps (gate q) db h) (λ _. h)
