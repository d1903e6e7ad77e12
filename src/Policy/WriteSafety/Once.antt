-- ===== src/Policy/WriteSafety/Once.antt =====
-- The life of the row of a granted reservation, and a second run under its key.
use odoo_mcp.Prelude.{
  ℕ, ◌+◌, ◌<◌, ℤ, String, true, false, ◌≡◌, refl, sym, ◌∙◌, Option, none, some, ap, subst,
  Bool-cases, inl, inr, [],
}
use odoo_mcp.Json.{Dict}
use odoo_mcp.Storage.Platform.{Platform}
use odoo_mcp.Storage.Models.{
  AuditEvent, IdempotencyRow, IdempotencyState, IdempotencyDecision, reserved,
}
use odoo_mcp.Storage.Database.{Db, ok, Fault, transaction_induction, bind_induction, pure, ◌>>=◌}
use odoo_mcp.Storage.Audit.{append, append_in_transaction}
use odoo_mcp.Storage.Audit.Chain.{append_cases}
use odoo_mcp.Storage.Idempotency.{
  RowKey, find_row, Reservation, reserve_in_transaction, finish_in_transaction, ttl, new_row,
  request_hash,
}
use odoo_mcp.Storage.Idempotency.Reserve.{
  granted_row, held_not_reserved, reserve_in_transaction-IsSound,
}
use odoo_mcp.Storage.Idempotency.Branches.{IsSound}
use odoo_mcp.Storage.Idempotency.Finish.{
  finish_in_transaction-IsSound, finish_in_transaction-expires_at,
}
use odoo_mcp.Storage.Execution.{finish, finish_for, finish_body, reservation_of}
use odoo_mcp.Storage.Execution.Grant.{begin_granted}
use odoo_mcp.Policy.WriteSafety.Types.{Request}
use odoo_mcp.Policy.WriteSafety.Event.{event}
use odoo_mcp.Policy.WriteSafety.Run.{run, attempt_action}
use odoo_mcp.Policy.WriteSafety.Keeps.{CallbackKeeps, Keeps, prepare_path-keeps}
use odoo_mcp.Policy.WriteSafety.Attempt.{executes, begin_call, run_attempt}

-- The key has a row that expires at the time given.
pub record Held (k : RowKey) (t : ℕ) (db : Db) : Type 0 where
  pub sound : IsSound db
  pub row : IdempotencyRow
  pub found : find_row k db.idempotency_keys ≡ some row
  pub expires : row.expires_at ≡ t

module _ (p : Platform) (k : RowKey) (t : ℕ) where
  append_in_transaction-Held :
      (now : ℕ) (e : AuditEvent) (db : Db)
      → Held k t db
      → Held k t (append_in_transaction p now e db).1
  append_in_transaction-Held now e db h = elim (append_cases p now e db) [
    | inl (_, failed) ↦ rw failed h
    | inr done ↦
        rw done (record { sound = h.sound; row = h.row; found = h.found; expires = h.expires })
  ]

  append-Held :
      (fault : Fault) (now : ℕ) (e : AuditEvent) (db : Db)
      → Held k t db
      → Held k t (append p fault now e db).1
  unfolding append
  append-Held fault now e db h =
      transaction_induction (Held k t) fault (append_in_transaction p now e) db h
        (append_in_transaction-Held now e db h)

  finish_in_transaction-Held :
      (now : ℕ) (v : Reservation) (s : IdempotencyState) (o : Option Dict) (db : Db)
      → Held k t db
      → Held k t (finish_in_transaction now v s o db).1
  finish_in_transaction-Held now v s o db h =
      let (r, found, expires) = finish_in_transaction-expires_at now v s o db k h.row h.found in
      record {
        sound = finish_in_transaction-IsSound now v s o db h.sound;
        row = r;
        found = found;
        expires = expires ∙ h.expires;
      }

  finish_for-Held :
      (c : Option ℤ) (fault : Fault) (now : ℕ) (e : AuditEvent) (key : String)
      (s : IdempotencyState) (o : Option Dict) (db : Db)
      → Held k t db
      → Held k t (finish_for p c fault now e key s o db).1
  unfolding finish_body
  finish_for-Held none fault now e key s o db h = h
  finish_for-Held (some c) fault now e key s o db h =
      let v = reservation_of e c key in
      transaction_induction (Held k t) fault (finish_body p now e v s o) db h (
        bind_induction (Held k t) (finish_in_transaction now v s o)
          (λ _. append_in_transaction p now e >>= λ _. pure tt) db
          (finish_in_transaction-Held now v s o db h)
          (λ _ d g.
            bind_induction (Held k t) (append_in_transaction p now e) (λ _. pure tt) d
              (append_in_transaction-Held now e d g) (λ _ _ x. x)))

  finish-Held :
      (fault : Fault) (now : ℕ) (e : AuditEvent) (key : String) (s : IdempotencyState)
      (o : Option Dict) (db : Db)
      → Held k t db
      → Held k t (finish p fault now e key s o db).1
  unfolding finish
  finish-Held fault now e key s o db h = finish_for-Held e.company_id fault now e key s o db h

-- The columns of the row that a request reserves under a key.
abbrev pub request_key : Request → String → RowKey
request_key q key = record {
  tenant_id = q.binding.tenant_id;
  tool_name = q.definition.name;
  idempotency_key = key;
}

-- The callbacks of a request, and what runs while they are awaited, keep its row.
pub record RowKept (q : Request) (k : RowKey) (t : ℕ) : Type 0 where
  pub by_prepare : CallbackKeeps (Held k t) q.callbacks.prepare
  pub by_validate : CallbackKeeps (Held k t) q.callbacks.validate_current_state
  pub by_execute : CallbackKeeps (Held k t) q.callbacks.execute

Held-Keeps : (q : Request) (k : RowKey) (t : ℕ) → RowKept q k t → Keeps (Held k t) q
Held-Keeps q k t kept = record {
  by_append = λ e db h. append-Held q.platform k t q.on_append.fault q.on_append.now e db h;
  by_finish =
      λ e key s o db h. finish-Held q.platform k t q.on_finish.fault q.on_finish.now e key s o db h;
  by_prepare = kept.by_prepare;
  by_validate = kept.by_validate;
  by_execute = kept.by_execute;
}

pub begin-Held :
    (q : Request) (key : String) (db : Db) (d : IdempotencyDecision)
    → IsSound db
    → (begin_call q key db).0 ≡ ok d
    → d.disposition ≡ reserved
    → Held (request_key q key) (q.on_begin.now + ttl) (begin_call q key db).1
begin-Held q key db d sound begun granted =
    let p = q.platform in
    let now = q.on_begin.now in
    let e = event q "attempted" none (some (attempt_action q)) [] in
    let payload = q.command.request_payload in
    let (c, company, (reserved_by, appended, _)) =
      begin_granted p now e q.on_begin.fault key payload db d begun granted in
    let v = reservation_of e c key in
    let named : v.key ≡ request_key q key = unfold event in refl in
    let h : Held v.key (now + ttl) (reserve_in_transaction p now v payload db).1 = record {
      sound = reserve_in_transaction-IsSound p now v payload db sound;
      row = new_row v (request_hash p c payload) now db.idempotency_next;
      found = granted_row p now v payload db d sound reserved_by granted;
      expires = refl;
    } in
    subst (λ k. Held k (now + ttl) (begin_call q key db).1) named
      (subst (Held v.key (now + ttl)) (sym appended) (
        append_in_transaction-Held p v.key (now + ttl) now e
          (reserve_in_transaction p now v payload db).1 h))

-- After a run that called the execute callback the key has its row, whatever came of the run.
executed-Held :
    (q : Request) (key : String) (db : Db)
    → q.command.idempotency_key ≡ some key
    → IsSound db
    → RowKept q (request_key q key) (q.on_begin.now + ttl)
    → executes (run q db).calls ≡ true
    → Held (request_key q key) (q.on_begin.now + ttl) (run q db).db
executed-Held q key db given sound kept h =
    let (permitted, g) = run_attempt q db h in
    let same : g.key ≡ key = cc (given, g.key_given) in
    let t = q.on_begin.now + ttl in
    let k = request_key q key in
    let at_begin : Held k t (begin_call q g.key db).1 =
      subst (λ j. Held (request_key q j) t (begin_call q g.key db).1) same
        (begin-Held q g.key db g.decision sound g.begun g.granted) in
    subst (λ s. Held k t s.db) (sym g.rest)
      (prepare_path-keeps q (Held-Keeps q k t kept) g.key (begin_call q g.key db).1 at_begin)

-- While the row of its key has not expired, a run does not call the execute callback.
Held-blocks :
    (q : Request) (key : String) (t : ℕ) (db : Db)
    → q.command.idempotency_key ≡ some key
    → Held (request_key q key) t db
    → q.on_begin.now < t
    → executes (run q db).calls ≡ false
Held-blocks q key t db given held alive = elim (Bool-cases (executes (run q db).calls)) [
  | inr idle ↦ idle
  | inl h ↦
      let (permitted, g) = run_attempt q db h in
      let same : g.key ≡ key = cc (given, g.key_given) in
      let p = q.platform in
      let e = event q "attempted" none (some (attempt_action q)) [] in
      let payload = q.command.request_payload in
      let (c, company, (reserved_by, _, _)) =
        begin_granted p q.on_begin.now e q.on_begin.fault g.key payload db g.decision g.begun
          g.granted in
      let v = reservation_of e c g.key in
      let named : v.key ≡ request_key q g.key = unfold event in refl in
      let found : find_row v.key db.idempotency_keys ≡ some held.row =
        subst (λ k. find_row k db.idempotency_keys ≡ some held.row)
          (ap (request_key q) (sym same) ∙ sym named) held.found in
      absurd (
        held_not_reserved p q.on_begin.now v payload db held.row g.decision found
          (subst (λ x. q.on_begin.now < x) (sym held.expires) alive) reserved_by g.granted)
]

-- Two runs for one tenant and tool under one key do not both execute within the life of the key: if
-- the first called the execute callback, the second, which begins before the first reservation has
-- expired, does not, whatever either is asked to write, however the first ended, whichever of its
-- storage calls failed, and whatever happened between them, so long as no other task takes the row
-- of the key away.
pub at_most_once :
    (q r : Request) (key : String) (between : Db → Db) (db : Db)
    → IsSound db
    → q.command.idempotency_key ≡ some key
    → r.command.idempotency_key ≡ some key
    → r.binding.tenant_id ≡ q.binding.tenant_id
    → r.definition.name ≡ q.definition.name
    → RowKept q (request_key q key) (q.on_begin.now + ttl)
    → ((d : Db)
        → Held (request_key q key) (q.on_begin.now + ttl) d
        → Held (request_key q key) (q.on_begin.now + ttl) (between d))
    → r.on_begin.now < q.on_begin.now + ttl
    → executes (run q db).calls ≡ true
    → executes (run r (between (run q db).db)).calls ≡ false
at_most_once q r key between db sound q_key r_key tenant tool kept still alive h =
    let t = q.on_begin.now + ttl in
    let same : request_key q key ≡ request_key r key = cc (tenant, tool) in
    Held-blocks r key t (between (run q db).db) r_key
      (subst (λ k. Held k t (between (run q db).db)) same
        (still (run q db).db (executed-Held q key db q_key sound kept h)))
      alive
