-- ===== src/Policy/WriteSafety/Durable.antt =====
-- Proofs about what a run has stored when it reports success.
use odoo_mcp.Prelude.{
  String, true, ◌≡◌, refl, sym, subst, ap, ◌∙◌, some, List, [], ◌∷◌, ◌++◌, arith, if_induction,
}
use odoo_mcp.Storage.Models.{AuditRecord, IdempotencyRow, IdempotencyState}
use odoo_mcp.Storage.Database.{Db, Result, ok, err}
use odoo_mcp.Storage.Event.{stored_event}
use odoo_mcp.Storage.Audit.{next_record, tenant_rows}
use odoo_mcp.Storage.Idempotency.{find_row, finished}
use odoo_mcp.Storage.Idempotency.Branches.{IsSound}
use odoo_mcp.Storage.Execution.{finish}
use odoo_mcp.Storage.Execution.Record.{finish-Recorded}
use odoo_mcp.Policy.WriteSafety.Types.{
  PreparedWrite, AppliedWrite, WriteSafetyResponse, WriteStatus, Outcome, returned, wrong_type,
  cancelled, Request,
}
use odoo_mcp.Policy.WriteSafety.Response.{failure, prepared_response, applied_response}
use odoo_mcp.Policy.WriteSafety.Persistence.{response_mapping_for_persistence}
use odoo_mcp.Policy.WriteSafety.Stored.{IsStored, response_mapping_for_persistence-IsStored}
use odoo_mcp.Json.{Dict}
use odoo_mcp.Policy.WriteSafety.Event.{event}
use odoo_mcp.Policy.WriteSafety.Steps.{
  Ending, responded, finish_pre_write_failure, finish_known_write_failure, finalize_unknown,
}
use odoo_mcp.Policy.WriteSafety.Run.{
  reported, finish_success, after_execute, execute_path, after_validate, validate_path,
  finish_needs_input, after_prepare, prepare_path, run,
}
use odoo_mcp.Policy.WriteSafety.Keeps.{CallbackKeeps}
use odoo_mcp.Policy.WriteSafety.Attempt.{executes, begin_call, run_attempt}
use odoo_mcp.Policy.WriteSafety.Once.{request_key, begin-Held}

-- The row of the key holds what is stored of the response, as a success, and the last audit record is the request's.
pub record Saved (q : Request) (key : String) (r : WriteSafetyResponse) (db : Db) : Type 0 where
  pub row : IdempotencyRow
  pub found : find_row (request_key q key) db.idempotency_keys ≡ some row
  pub state : row.state ≡ IdempotencyState.succeeded
  pub stored : Dict
  pub response : row.response ≡ some stored
  pub of_response : IsStored q.pydantic q.command r stored
  pub before : List AuditRecord
  pub last : AuditRecord
  pub logged : db.audit_log ≡ before ++ last ∷ []
  pub by_request : last.event.request_id ≡ q.request_id
  pub as_succeeded : last.event.final_status ≡ "succeeded"

-- The callbacks, and what runs while they are awaited, keep the table well formed.
pub record SoundKept (q : Request) : Type 0 where
  pub by_prepare : CallbackKeeps IsSound q.callbacks.prepare
  pub by_validate : CallbackKeeps IsSound q.callbacks.validate_current_state
  pub by_execute : CallbackKeeps IsSound q.callbacks.execute

module _ (q : Request) (key : String) where
  -- A success that the step reports is saved.
  abbrev Durable : Ending → Db → Type 0
  Durable ending db =
      (r : WriteSafetyResponse)
      → ending ≡ responded r
      → r.status ≡ WriteStatus.succeeded
      → Saved q key r db

  reported-Durable :
      (w : PreparedWrite) (a : AppliedWrite) (x : Result (Unit {0})) (db : Db)
      → (x ≡ ok tt → Saved q key (applied_response w a q.request_id q.command.company_id) db)
      → Durable (reported q w (applied_response w a q.request_id q.command.company_id) x) db
  reported-Durable w a (ok tt) db saved r e h = subst (λ x. Saved q key x db) (cc e) (saved refl)
  reported-Durable w a (err x) db saved r e h = unfold failure in absurd (cc (e, h))

  finish_success-Durable :
      (w : PreparedWrite) (a : AppliedWrite) (db : Db)
      → IsSound db
      → Durable (finish_success q key w a db).ending (finish_success q key w a db).db
  unfolding finish_success
  finish_success-Durable w a db sound =
      let r = applied_response w a q.request_id q.command.company_id in
      let e = event q "succeeded" (some r) (some w.proposed_action) a.record_refs in
      let d = response_mapping_for_persistence q.pydantic q.command r in
      let done =
        finish q.platform q.on_finish.fault q.on_finish.now e key IdempotencyState.succeeded
          (some d) db in
      reported-Durable w a done.0 done.1 (λ ended.
        let (c, company, g) =
          finish-Recorded q.platform q.on_finish.now e q.on_finish.fault key
            IdempotencyState.succeeded d db sound ended in
        record {
          row = finished IdempotencyState.succeeded d q.on_finish.now g.row;
          found = unfold event in g.stored;
          state = refl;
          stored = d;
          response = refl;
          of_response =
              response_mapping_for_persistence-IsStored q.pydantic q.command r
                (unfold applied_response in refl) (unfold applied_response in refl)
                (unfold applied_response in refl);
          before = db.audit_log;
          last =
              next_record q.platform e q.on_finish.now db.audit_next
                (tenant_rows e.tenant_id db.audit_log);
          logged = g.logged;
          by_request = unfold next_record stored_event event in refl;
          as_succeeded = unfold next_record stored_event event in refl;
        })

  after_execute-Durable :
      (w : PreparedWrite) (o : Outcome AppliedWrite) (db : Db)
      → IsSound db
      → Durable (after_execute q key w o db).ending (after_execute q key w o db).db
  unfolding after_execute finish_known_write_failure finalize_unknown failure
  after_execute-Durable w (returned a) db sound = finish_success-Durable w a db sound
  after_execute-Durable w cancelled db sound = λ r e h. absurd (cc e)
  after_execute-Durable w _ db sound = λ r e h. absurd (cc (e, h))

  module _ (kept : SoundKept q) where
    execute_path-Durable :
        (w : PreparedWrite) (db : Db)
        → IsSound db
        → Durable (execute_path q key w db).ending (execute_path q key w db).db
    unfolding execute_path
    execute_path-Durable w db sound =
        after_execute-Durable w (q.callbacks.execute db).0 _ (kept.by_execute db sound)

    after_validate-Durable :
        (w : PreparedWrite) (o : Outcome (Unit {0})) (db : Db)
        → IsSound db
        → Durable (after_validate q key w o db).ending (after_validate q key w o db).db
    unfolding after_validate finish_pre_write_failure failure
    after_validate-Durable w (returned _) db sound = execute_path-Durable w db sound
    after_validate-Durable w wrong_type db sound = execute_path-Durable w db sound
    after_validate-Durable w cancelled db sound = λ r e h. absurd (cc e)
    after_validate-Durable w _ db sound = λ r e h. absurd (cc (e, h))

    needs_input-Durable :
        (w : PreparedWrite) (db : Db)
        → Durable (finish_needs_input q key w db).ending (finish_needs_input q key w db).db
    unfolding finish_needs_input prepared_response
    needs_input-Durable w db r e h =
        let same : prepared_response w q.request_id q.command.company_id ≡ r = cc e in
        let named : (prepared_response w q.request_id q.command.company_id).status
            ≡ WriteStatus.succeeded =
          ap (λ (x : WriteSafetyResponse). x.status) same ∙ h in
        absurd (ground (arith, named))

    after_prepare-Durable :
        (o : Outcome PreparedWrite) (db : Db)
        → IsSound db
        → Durable (after_prepare q key o db).ending (after_prepare q key o db).db
    unfolding after_prepare validate_path finish_pre_write_failure failure
    after_prepare-Durable (returned w) db sound =
        if_induction (λ s. Durable s.ending s.db) w.needs_input (finish_needs_input q key w db)
          (validate_path q key w db) (λ _. needs_input-Durable w db)
          (λ _.
            after_validate-Durable w (q.callbacks.validate_current_state db).0 _
              (kept.by_validate db sound))
    after_prepare-Durable cancelled db sound = λ r e h. absurd (cc e)
    after_prepare-Durable _ db sound = λ r e h. absurd (cc (e, h))

-- If a run calls the execute callback and reports success, and the callbacks keep the table of keys
-- well formed, the row of its key holds a success and what is to be stored of that response: its
-- dump, if the command neither names keys to retain nor persists compactly; the dump of a response
-- that has only the retained keys of its action and its effects, if it names keys; and if it persists
-- compactly, a mapping with its status, outcome, request and company and the values of the six
-- selected keys. The last record of the audit log is the success of this request.
pub run-Saved :
    (q : Request) (db : Db) (r : WriteSafetyResponse)
    → IsSound db
    → SoundKept q
    → executes (run q db).calls ≡ true
    → (run q db).ending ≡ responded r
    → r.status ≡ WriteStatus.succeeded
    → (key : String) × (q.command.idempotency_key ≡ some key) × Saved q key r (run q db).db
run-Saved q db r sound kept h e success =
    let (permitted, g) = run_attempt q db h in
    let start = (begin_call q g.key db).1 in
    let at_begin = begin-Held q g.key db g.decision sound g.begun g.granted in
    let saved =
      after_prepare-Durable q g.key kept (q.callbacks.prepare start).0 (q.callbacks.prepare start).1
        (kept.by_prepare start at_begin.sound) in
    (
      g.key,
      g.key_given,
      subst (λ s. Durable q g.key s.ending s.db) (sym g.rest) (unfold prepare_path in saved) r e
          success,
    )
