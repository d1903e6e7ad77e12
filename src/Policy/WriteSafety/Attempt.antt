-- ===== src/Policy/WriteSafety/Attempt.antt =====
-- Proofs about the phases of `run` that stand before the execute callback.
use odoo_mcp.Prelude.{
  String, Bool, true, false, ◌||◌, ◌≡◌, refl, Option, none, some, List, [], ◌∷◌, is_blank,
  if_induction,
}
use odoo_mcp.Errors.{OdooMcpError}
use odoo_mcp.Storage.Models.{
  IdempotencyDisposition, IdempotencyDecision, reserved, replay, payload_mismatch,
}
use odoo_mcp.Storage.Database.{Db, Result, ok, err}
use odoo_mcp.Storage.Execution.{begin}
use odoo_mcp.Policy.WriteSafety.Types.{
  PreparedWrite, WriteSafetyResponse, Outcome, returned, Request,
}
use odoo_mcp.Policy.WriteSafety.Gate.{write_tool_definition_is_valid}
use odoo_mcp.Policy.WriteSafety.Event.{event}
use odoo_mcp.Policy.WriteSafety.Steps.{
  Call, execute, Step, append_or_fail, record_pre_write_failure,
}
use odoo_mcp.Policy.WriteSafety.Run.{
  after_dry_prepare, preview_path, prepare_path, replay_path, on_disposition, after_begin,
  begin_path, execution_path, after_gate, run, gate, attempt_action,
}

abbrev pub is_execute : Call → Bool
is_execute execute = true
is_execute _ = false

-- The execute callback is among the calls.
abbrev pub executes : List Call → Bool
executes [] = false
executes (c ∷ cs) = is_execute c || executes cs

-- The storage call of `begin` in a run under a key.
abbrev pub begin_call : Request → String → Db → Result IdempotencyDecision × Db
begin_call q key =
    begin q.platform q.on_begin.fault q.on_begin.now
      (event q "attempted" none (some (attempt_action q)) []) key q.command.request_payload

-- The tool is a write tool, no gate objects, and the call is no dry run.
pub record Permitted (q : Request) : Type 0 where
  pub valid : write_tool_definition_is_valid q.definition ≡ true
  pub passed : gate q ≡ none
  pub explicit : q.command.dry_run ≡ false

-- Under a key that is not blank a reservation was granted, and the run went on from there.
pub record Granted (q : Request) (given : Option String) (db : Db) (s : Step) : Type 0 where
  pub key : String
  pub key_given : given ≡ some key
  pub key_named : is_blank key ≡ false
  pub decision : IdempotencyDecision
  pub begun : (begin_call q key db).0 ≡ ok decision
  pub granted : decision.disposition ≡ reserved
  pub rest : s ≡ prepare_path q key (begin_call q key db).1

module _ (q : Request) where
  dry_calls : (o : Outcome PreparedWrite) (db : Db) → (after_dry_prepare q o db).calls ≡ []
  unfolding after_dry_prepare record_pre_write_failure append_or_fail
  dry_calls (returned w) db = refl
  dry_calls _ db = refl

  replay_calls : (o : Option WriteSafetyResponse) (db : Db) → (replay_path q o db).calls ≡ []
  unfolding replay_path append_or_fail
  replay_calls none db = refl
  replay_calls (some r) db = refl

  -- The rest of the run after a `begin` that came to `r` and `db`.
  abbrev Goes : String → Result IdempotencyDecision → Db → Step → Type 0
  Goes key r db s =
      (d : IdempotencyDecision) × (r ≡ ok d)
      × (d.disposition ≡ reserved)
      × (s ≡ prepare_path q key db)

  on_disposition-Goes :
      (key : String) (d : IdempotencyDecision) (x : IdempotencyDisposition) (db : Db)
      → d.disposition ≡ x
      → executes (on_disposition q key d x db).calls ≡ true
      → Goes key (ok d) db (on_disposition q key d x db)
  unfolding on_disposition append_or_fail
  on_disposition-Goes key d IdempotencyDisposition.in_progress db e h = cc
  on_disposition-Goes key d replay db e h = cc (replay_calls _ db)
  on_disposition-Goes key d reserved db e h = (d, refl, e, refl)

  after_begin-Goes :
      (key : String) (r : Result IdempotencyDecision) (db : Db)
      → executes (after_begin q key r db).calls ≡ true
      → Goes key r db (after_begin q key r db)
  unfolding after_begin append_or_fail
  after_begin-Goes key (err payload_mismatch) db h = cc
  after_begin-Goes key (err _) db h = cc
  after_begin-Goes key (ok d) db h = on_disposition-Goes key d d.disposition db refl h

  execution_path-Granted :
      (given : Option String) (db : Db)
      → executes (execution_path q given db).calls ≡ true
      → Granted q given db (execution_path q given db)
  unfolding execution_path append_or_fail begin_path
  execution_path-Granted none db = λ h. absurd (cc)
  execution_path-Granted (some key) db =
      if_induction (λ s. executes s.calls ≡ true → Granted q (some key) db s) (is_blank key) _
        (begin_path q key db) (λ _ h. absurd (cc))
        (λ named h.
          let (r, db') = begin_call q key db in
          let (d, begun, granted, rest) = after_begin-Goes key r db' h in
          record {
            key = key;
            key_given = refl;
            key_named = named;
            decision = d;
            begun = begun;
            granted = granted;
            rest = rest;
          })

  after_gate-Granted :
      (o : Option OdooMcpError) (db : Db)
      → executes (after_gate q o db).calls ≡ true
      → (o ≡ none)
        × (q.command.dry_run ≡ false)
        × Granted q q.command.idempotency_key db (after_gate q o db)
  unfolding after_gate append_or_fail preview_path
  after_gate-Granted (some e) db = λ h. absurd (cc)
  after_gate-Granted none db =
      let given = q.command.idempotency_key in
      if_induction
        (λ s.
          executes s.calls ≡ true
          → (◌≡◌ {A = Option OdooMcpError} none none)
            × (q.command.dry_run ≡ false)
            × Granted q given db s)
        q.command.dry_run (preview_path q db) (execution_path q given db)
        (λ _ h. absurd (cc (dry_calls (q.callbacks.prepare db).0 (q.callbacks.prepare db).1)))
        (λ wet h. (refl, wet, execution_path-Granted given db h))

  -- The execute callback is called only if the definition is that of a write tool, no gate objects,
  -- the call is no dry run, the key is given and not blank, and `begin` has granted a reservation
  -- and committed it; what the run does from there on starts from the tables that `begin` left.
  pub run_attempt :
      (db : Db)
      → executes (run q db).calls ≡ true
      → Permitted q × Granted q q.command.idempotency_key db (run q db)
  unfolding run
  run_attempt db =
      if_induction {A = Step}
        (λ s. executes s.calls ≡ true → Permitted q × Granted q q.command.idempotency_key db s)
        (write_tool_definition_is_valid q.definition) _ _
        (λ valid h.
          let (passed, wet, granted) = after_gate-Granted (gate q) db h in
          (record { valid = valid; passed = passed; explicit = wet }, granted))
        (λ _ h. absurd (cc))
