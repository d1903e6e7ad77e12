-- ===== src/Policy/WriteSafety/Honest.antt =====
-- Proofs about the outcome that `run` reports.
use odoo_mcp.Prelude.{
  String, true, false, ◌≡◌, ◌≢◌, refl, ◌⊎◌, inl, inr, Option, none, some, if_induction, is_blank,
}
use odoo_mcp.Json.{Dict}
use odoo_mcp.Errors.{OdooMcpError}
use odoo_mcp.Storage.Models.{
  AuditEvent, AuditRecord, IdempotencyDisposition, IdempotencyDecision, reserved, replay,
  payload_mismatch,
}
use odoo_mcp.Storage.Database.{Db, Result, ok, err}
use odoo_mcp.Storage.Audit.{append}
use odoo_mcp.Policy.WriteSafety.Types.{
  PreparedWrite, AppliedWrite, WriteSafetyResponse, not_attempted, Outcome, returned, wrong_type,
  cancelled, Request,
}
use odoo_mcp.Policy.WriteSafety.Gate.{write_tool_definition_is_valid}
use odoo_mcp.Policy.WriteSafety.Response.{failure, prepared_response, applied_response}
use odoo_mcp.Policy.WriteSafety.Persistence.{restore_persisted_response}
use odoo_mcp.Policy.WriteSafety.Steps.{
  Ending, responded, raised_cancelled, raised_value_error, Step, fail, append_or_fail, or_failed,
  record_pre_write_failure, finish_pre_write_failure, finish_known_write_failure, finalize_unknown,
}
use odoo_mcp.Policy.WriteSafety.Run.{
  after_dry_prepare, preview_path, finish_success, after_execute, execute_path, after_validate,
  validate_path, finish_needs_input, after_prepare, prepare_path, replay_path, on_disposition,
  after_begin, begin_path, execution_path, after_gate, run, gate, reported, not_explicit_error,
}
use odoo_mcp.Policy.WriteSafety.Attempt.{executes}

module _ (q : Request) where
  -- The response says that nothing was attempted, or it was restored from the storage.
  abbrev pub IsIdle : WriteSafetyResponse → Type 0
  IsIdle r =
      (r.outcome ≡ not_attempted)
      ⊎ ((payload : Option Dict) × (restore_persisted_response q.pydantic q.command payload
            ≡ some r))

  abbrev pub IdleEnding : Ending → Type 0
  IdleEnding (responded r) = IsIdle r
  IdleEnding _ = Unit

  abbrev pub ActiveEnding : Ending → Type 0
  ActiveEnding (responded r) = r.outcome ≢ not_attempted
  ActiveEnding raised_cancelled = Unit
  ActiveEnding raised_value_error = ⊥

  -- A step that made no execute call ends idle, and one that made it ends otherwise.
  abbrev pub Reports : Step → Type 0
  Reports s =
      ((executes s.calls ≡ false) × IdleEnding s.ending)
      ⊎ ((executes s.calls ≡ true) × ActiveEnding s.ending)

  append_or_fail-Reports :
      (e : AuditEvent) (r : WriteSafetyResponse) (db : Db)
      → IsIdle r
      → Reports (append_or_fail q e r db)
  unfolding append_or_fail
  append_or_fail-Reports e r db i =
      inl (refl, or_failed-IsIdle (append q.platform q.on_append.fault q.on_append.now e db).0)
    where
      or_failed-IsIdle : (x : Result AuditRecord) → IsIdle (or_failed r x)
      or_failed-IsIdle (ok _) = i
      or_failed-IsIdle (err _) = inl (unfold failure in refl)

  record_pre_write_failure-Reports :
      (e : OdooMcpError) (db : Db) → Reports (record_pre_write_failure q e db)
  unfolding record_pre_write_failure failure
  record_pre_write_failure-Reports e db = append_or_fail-Reports _ _ db (inl refl)

  after_dry_prepare-Reports :
      (o : Outcome PreparedWrite) (db : Db) → Reports (after_dry_prepare q o db)
  unfolding after_dry_prepare
  after_dry_prepare-Reports (returned w) db =
      append_or_fail-Reports _ _ db (inl (unfold prepared_response in refl))
  after_dry_prepare-Reports cancelled db =
      inl (unfold record_pre_write_failure append_or_fail in refl, tt)
  after_dry_prepare-Reports _ db = record_pre_write_failure-Reports _ db

  finish_pre_write_failure-Reports :
      (key : String) (e : OdooMcpError) (w : Option PreparedWrite) (db : Db)
      → Reports (finish_pre_write_failure q key e w db)
  unfolding finish_pre_write_failure failure
  finish_pre_write_failure-Reports key e w db = inl (refl, inl refl)

  reported-ActiveEnding :
      (w : PreparedWrite) (a : AppliedWrite) (x : Result (Unit {0}))
      → ActiveEnding (reported q w (applied_response w a q.request_id q.command.company_id) x)
  unfolding failure applied_response
  reported-ActiveEnding w a (ok _) = λ e. cc
  reported-ActiveEnding w a (err _) = λ e. cc

  after_execute-ActiveEnding :
      (key : String) (w : PreparedWrite) (o : Outcome AppliedWrite) (db : Db)
      → ActiveEnding (after_execute q key w o db).ending
  unfolding after_execute finish_success finish_known_write_failure finalize_unknown failure
  after_execute-ActiveEnding key w (returned a) db = reported-ActiveEnding w a _
  after_execute-ActiveEnding key w cancelled db = tt
  after_execute-ActiveEnding key w _ db = λ e. cc

  execute_path-Reports :
      (key : String) (w : PreparedWrite) (db : Db) → Reports (execute_path q key w db)
  unfolding execute_path
  execute_path-Reports key w db =
      inr (refl, after_execute-ActiveEnding key w (q.callbacks.execute db).0 _)

  after_validate-Reports :
      (key : String) (w : PreparedWrite) (o : Outcome (Unit {0})) (db : Db)
      → Reports (after_validate q key w o db)
  unfolding after_validate
  after_validate-Reports key w (returned _) db = execute_path-Reports key w db
  after_validate-Reports key w wrong_type db = execute_path-Reports key w db
  after_validate-Reports key w cancelled db = inl (unfold finish_pre_write_failure in refl, tt)
  after_validate-Reports key w _ db = finish_pre_write_failure-Reports key _ (some w) db

  after_prepare-Reports :
      (key : String) (o : Outcome PreparedWrite) (db : Db) → Reports (after_prepare q key o db)
  unfolding after_prepare finish_needs_input validate_path
  after_prepare-Reports key (returned w) db =
      if_induction (λ s. Reports s) w.needs_input (finish_needs_input q key w db)
        (validate_path q key w db) (λ _. inl (refl, inl (unfold prepared_response in refl)))
        (λ _. after_validate-Reports key w (q.callbacks.validate_current_state db).0 _)
  after_prepare-Reports key cancelled db = inl (unfold finish_pre_write_failure in refl, tt)
  after_prepare-Reports key _ db = finish_pre_write_failure-Reports key _ none db

  replay_path-Reports :
      (payload : Option Dict) (o : Option WriteSafetyResponse) (db : Db)
      → restore_persisted_response q.pydantic q.command payload ≡ o
      → Reports (replay_path q o db)
  unfolding replay_path
  replay_path-Reports payload none db e = inl (refl, inl (unfold failure in refl))
  replay_path-Reports payload (some r) db e = append_or_fail-Reports _ r db (inr (payload, e))

  on_disposition-Reports :
      (key : String) (d : IdempotencyDecision) (x : IdempotencyDisposition) (db : Db)
      → Reports (on_disposition q key d x db)
  unfolding on_disposition prepare_path
  on_disposition-Reports key d IdempotencyDisposition.in_progress db =
      append_or_fail-Reports _ _ db (inl (unfold failure in refl))
  on_disposition-Reports key d replay db = replay_path-Reports d.response _ db refl
  on_disposition-Reports key d reserved db = after_prepare-Reports key (q.callbacks.prepare db).0 _

  after_begin-Reports :
      (key : String) (r : Result IdempotencyDecision) (db : Db) → Reports (after_begin q key r db)
  unfolding after_begin
  after_begin-Reports key (err payload_mismatch) db =
      append_or_fail-Reports _ _ db (inl (unfold failure in refl))
  after_begin-Reports key (err _) db = inl (refl, inl (unfold failure in refl))
  after_begin-Reports key (ok d) db = on_disposition-Reports key d d.disposition db

  execution_path-Reports : (given : Option String) (db : Db) → Reports (execution_path q given db)
  unfolding execution_path begin_path
  execution_path-Reports none db = append_or_fail-Reports _ _ db (inl (unfold failure in refl))
  execution_path-Reports (some key) db =
      if_induction (λ s. Reports s) (is_blank key) _ (begin_path q key db)
        (λ _.
          append_or_fail-Reports _ (fail q not_explicit_error not_attempted none) db
            (inl (unfold failure in refl)))
        (λ _. after_begin-Reports key _ _)

  after_gate-Reports : (o : Option OdooMcpError) (db : Db) → Reports (after_gate q o db)
  unfolding after_gate preview_path
  after_gate-Reports (some e) db = append_or_fail-Reports _ _ db (inl (unfold failure in refl))
  after_gate-Reports none db =
      if_induction (λ s. Reports s) q.command.dry_run (preview_path q db)
        (execution_path q q.command.idempotency_key db)
        (λ _. after_dry_prepare-Reports (q.callbacks.prepare db).0 _)
        (λ _. execution_path-Reports q.command.idempotency_key db)

  -- A run that did not call the execute callback raises, or responds `not_attempted` or with a
  -- response that it restored from the storage; a run that called it lets a cancellation through or
  -- responds with another outcome than `not_attempted`.
  pub run-Reports : (db : Db) → Reports (run q db)
  unfolding run
  run-Reports db =
      if_induction {A = Step} (λ s. Reports s) (write_tool_definition_is_valid q.definition) _ _
        (λ _. after_gate-Reports (gate q) db) (λ _. inl (refl, tt))
