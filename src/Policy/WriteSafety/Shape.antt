-- ===== src/Policy/WriteSafety/Shape.antt =====
-- Proofs about the fields of the responses of `run`.
use odoo_mcp.Prelude.{
  ℤ, String, subst, true, ◌≡◌, refl, Option, none, some, arith, if_induction, is_blank,
}
use odoo_mcp.Json.{Dict}
use odoo_mcp.Errors.{OdooMcpError}
use odoo_mcp.Storage.Models.{
  AuditEvent, AuditRecord, IdempotencyDisposition, IdempotencyDecision, reserved, replay,
  payload_mismatch,
}
use odoo_mcp.Storage.Database.{Db, Result, ok, err}
use odoo_mcp.Storage.Audit.{append}
use odoo_mcp.Policy.WriteSafety.Types.{
  PreparedWrite, AppliedWrite, WriteSafetyResponse, validate_shape, WriteOutcome, not_attempted,
  Outcome, returned, wrong_type, cancelled, Request,
}
use odoo_mcp.Policy.WriteSafety.Gate.{write_tool_definition_is_valid}
use odoo_mcp.Policy.WriteSafety.Response.{failure, prepared_response, applied_response}
use odoo_mcp.Policy.WriteSafety.Persistence.{restore_persisted_response}
use odoo_mcp.Policy.WriteSafety.Steps.{
  Ending, responded, Step, fail, append_or_fail, or_failed, record_pre_write_failure,
  finish_pre_write_failure, finish_known_write_failure, finalize_unknown,
}
use odoo_mcp.Policy.WriteSafety.Run.{
  after_dry_prepare, preview_path, finish_success, after_execute, execute_path, after_validate,
  validate_path, finish_needs_input, after_prepare, prepare_path, replay_path, on_disposition,
  after_begin, begin_path, execution_path, after_gate, run, gate, reported, not_explicit_error,
}

-- A property of the responses that the four ways to build one establish.
pub record Built (q : Request) (R : WriteSafetyResponse → Type 0) : Type 0 where
  pub by_failure :
      (e : OdooMcpError) (request_id : String) (company_id : ℤ) (o : WriteOutcome)
      (w : Option PreparedWrite)
      → R (failure e request_id company_id o w)
  pub by_preview :
      (w : PreparedWrite) (request_id : String) (company_id : ℤ)
      → R (prepared_response w request_id company_id)
  pub by_success :
      (w : PreparedWrite) (a : AppliedWrite) (request_id : String) (company_id : ℤ)
      → R (applied_response w a request_id company_id)
  pub by_restore :
      (payload : Option Dict) (r : WriteSafetyResponse)
      → restore_persisted_response q.pydantic q.command payload ≡ some r
      → R r

abbrev pub Responds : (WriteSafetyResponse → Type 0) → Ending → Type 0
Responds R (responded r) = R r
Responds R _ = Unit

module _ (q : Request) {R : WriteSafetyResponse → Type 0} (built : Built q R) where
  or_failed-R : (r : WriteSafetyResponse) (x : Result AuditRecord) → R r → R (or_failed r x)
  or_failed-R r (ok _) h = h
  or_failed-R r (err _) h = built.by_failure _ _ _ _ _

  append_or_fail-R :
      (e : AuditEvent) (r : WriteSafetyResponse) (db : Db)
      → R r
      → Responds R (append_or_fail q e r db).ending
  unfolding append_or_fail
  append_or_fail-R e r db h =
      or_failed-R r (append q.platform q.on_append.fault q.on_append.now e db).0 h

  rejected-R :
      (e : AuditEvent) (x : OdooMcpError) (db : Db)
      → Responds R (append_or_fail q e (fail q x not_attempted none) db).ending
  rejected-R e x db = append_or_fail-R e _ db (built.by_failure x _ _ _ _)

  after_dry_prepare-R :
      (o : Outcome PreparedWrite) (db : Db) → Responds R (after_dry_prepare q o db).ending
  unfolding after_dry_prepare record_pre_write_failure
  after_dry_prepare-R (returned w) db = append_or_fail-R _ _ db (built.by_preview w _ _)
  after_dry_prepare-R cancelled db = tt
  after_dry_prepare-R _ db = rejected-R _ _ db

  reported-R :
      (w : PreparedWrite) (r : WriteSafetyResponse) (x : Result (Unit {0}))
      → R r
      → Responds R (reported q w r x)
  reported-R w r (ok _) h = h
  reported-R w r (err _) h = built.by_failure _ _ _ _ _

  after_execute-R :
      (key : String) (w : PreparedWrite) (o : Outcome AppliedWrite) (db : Db)
      → Responds R (after_execute q key w o db).ending
  unfolding after_execute finish_success finish_known_write_failure finalize_unknown
  after_execute-R key w (returned a) db = reported-R w _ _ (built.by_success w a _ _)
  after_execute-R key w cancelled db = tt
  after_execute-R key w _ db = built.by_failure _ _ _ _ _

  after_validate-R :
      (key : String) (w : PreparedWrite) (o : Outcome (Unit {0})) (db : Db)
      → Responds R (after_validate q key w o db).ending
  unfolding after_validate execute_path finish_pre_write_failure
  after_validate-R key w (returned _) db = after_execute-R key w (q.callbacks.execute db).0 _
  after_validate-R key w wrong_type db = after_execute-R key w (q.callbacks.execute db).0 _
  after_validate-R key w cancelled db = tt
  after_validate-R key w _ db = built.by_failure _ _ _ _ _

  after_prepare-R :
      (key : String) (o : Outcome PreparedWrite) (db : Db)
      → Responds R (after_prepare q key o db).ending
  unfolding after_prepare finish_needs_input validate_path finish_pre_write_failure
  after_prepare-R key (returned w) db =
      if_induction {A = Step} (λ s. Responds R s.ending) w.needs_input
        (finish_needs_input q key w db) (validate_path q key w db) (λ _. built.by_preview w _ _)
        (λ _. after_validate-R key w (q.callbacks.validate_current_state db).0 _)
  after_prepare-R key cancelled db = tt
  after_prepare-R key _ db = built.by_failure _ _ _ _ _

  replay_path-R :
      (payload : Option Dict) (o : Option WriteSafetyResponse) (db : Db)
      → restore_persisted_response q.pydantic q.command payload ≡ o
      → Responds R (replay_path q o db).ending
  unfolding replay_path
  replay_path-R payload none db e = built.by_failure _ _ _ _ _
  replay_path-R payload (some r) db e = append_or_fail-R _ r db (built.by_restore payload r e)

  on_disposition-R :
      (key : String) (d : IdempotencyDecision) (x : IdempotencyDisposition) (db : Db)
      → Responds R (on_disposition q key d x db).ending
  unfolding on_disposition prepare_path
  on_disposition-R key d IdempotencyDisposition.in_progress db = rejected-R _ _ db
  on_disposition-R key d replay db = replay_path-R d.response _ db refl
  on_disposition-R key d reserved db = after_prepare-R key (q.callbacks.prepare db).0 _

  after_begin-R :
      (key : String) (r : Result IdempotencyDecision) (db : Db)
      → Responds R (after_begin q key r db).ending
  unfolding after_begin
  after_begin-R key (err payload_mismatch) db = rejected-R _ _ db
  after_begin-R key (err _) db = built.by_failure _ _ _ _ _
  after_begin-R key (ok d) db = on_disposition-R key d d.disposition db

  execution_path-R :
      (given : Option String) (db : Db) → Responds R (execution_path q given db).ending
  unfolding execution_path begin_path
  execution_path-R none db = rejected-R _ _ db
  execution_path-R (some key) db =
      if_induction {A = Step} (λ s. Responds R s.ending) (is_blank key) _ (begin_path q key db)
        (λ _. rejected-R _ not_explicit_error db) (λ _. after_begin-R key _ _)

  after_gate-R : (o : Option OdooMcpError) (db : Db) → Responds R (after_gate q o db).ending
  unfolding after_gate preview_path
  after_gate-R (some e) db = rejected-R _ _ db
  after_gate-R none db =
      if_induction {A = Step} (λ s. Responds R s.ending) q.command.dry_run (preview_path q db)
        (execution_path q q.command.idempotency_key db)
        (λ _. after_dry_prepare-R (q.callbacks.prepare db).0 _)
        (λ _. execution_path-R q.command.idempotency_key db)

  pub run-Responds : (db : Db) → Responds R (run q db).ending
  unfolding run
  run-Responds db =
      if_induction {A = Step} (λ s. Responds R s.ending)
        (write_tool_definition_is_valid q.definition) _ _ (λ _. after_gate-R (gate q) db) (λ _. tt)

restored-shape :
    (q : Request)
    → ((d : Dict) (r : WriteSafetyResponse)
        → q.pydantic.model_validate d ≡ some r
        → validate_shape r ≡ true)
    → (payload : Option Dict) (r : WriteSafetyResponse)
    → restore_persisted_response q.pydantic q.command payload ≡ some r
    → validate_shape r ≡ true
unfolding restore_persisted_response
restored-shape q checks none r e = absurd (cc)
restored-shape q checks (some payload) r e = checks _ r e

-- If pydantic hands out only responses that pass their own validator, every response that `run`
-- returns passes it: a failure has its three error fields, any other response none of them, and an
-- unknown outcome is a failure.
pub run-validate_shape :
    (q : Request) (db : Db)
    → ((d : Dict) (r : WriteSafetyResponse)
        → q.pydantic.model_validate d ≡ some r
        → validate_shape r ≡ true)
    → (r : WriteSafetyResponse) → (run q db).ending ≡ responded r
    → validate_shape r ≡ true
run-validate_shape q db checks r e =
    let built : Built q (λ r. validate_shape r ≡ true) = record {
      by_failure = λ x i c o w. unfold validate_shape failure in ground arith;
      by_preview = λ w i c. unfold validate_shape prepared_response in ground arith;
      by_success = λ w a i c. unfold validate_shape applied_response in refl;
      by_restore = restored-shape q checks;
    } in
    subst (Responds (λ r. validate_shape r ≡ true)) e (run-Responds q built db)
