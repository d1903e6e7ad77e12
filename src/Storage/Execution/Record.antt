-- ===== src/Storage/Execution/Record.antt =====
-- Proofs about a `finish` that returns.
use odoo_mcp.Prelude.{
  ℕ, ◌+◌, ℤ, String, true, ◌≡◌, refl, sym, subst, ◌∙◌, ap, inl, inr, Option, none, some, [], ◌∷◌,
  ◌++◌, arith, Option-cases,
}
use odoo_mcp.Json.{Dict}
use odoo_mcp.Storage.Platform.{Platform}
use odoo_mcp.Storage.Models.{AuditEvent, AuditRecord, IdempotencyRow, IdempotencyState}
use odoo_mcp.Storage.Database.{Db, Result, ok, Action, Fault, transaction_ok, bind_ok, pure, ◌>>=◌}
use odoo_mcp.Storage.Audit.{append_in_transaction, next_record, tenant_rows}
use odoo_mcp.Storage.Audit.Chain.{append_cases}
use odoo_mcp.Storage.Idempotency.{Reservation, find_row, owned_by, finished, finish_in_transaction}
use odoo_mcp.Storage.Idempotency.Updates.{count_owned_lem, find_row-update_owned}
use odoo_mcp.Storage.Idempotency.Branches.{IsSound}
use odoo_mcp.Storage.Idempotency.Finish.{branches, with_finished, finish_in_transaction_lem}
use odoo_mcp.Storage.Execution.{finish, finish_for, finish_body, reservation_of}

-- The caller owned the row, which was updated.
owned_row :
    (now : ℕ) (v : Reservation) (s : IdempotencyState) (d : Dict) (db : Db)
    → IsSound db
    → (finish_in_transaction now v s (some d) db).0 ≡ ok tt
    → (r : IdempotencyRow) × (find_row v.key db.idempotency_keys ≡ some r)
      × (owned_by v r ≡ true)
      × ((finish_in_transaction now v s (some d) db).1 ≡ with_finished v s d now db)
owned_row now v s d db w h =
    let counted = count_owned_lem db.idempotency_next v db.idempotency_keys w in
    let h' : (branches now v s (some d) db).0 ≡ ok tt = rw finish_in_transaction_lem at h in
    elim (Option-cases (find_row v.key db.idempotency_keys)) [
      | inl absent ↦ absurd (ground (arith, counted))
      | inr (r, found) ↦ (
        r,
        found,
        ground (arith, counted),
        rw finish_in_transaction_lem (ground (arith, counted)),
      )
    ]

module _ (p : Platform) (now : ℕ) (e : AuditEvent) where
  -- The reservation was in progress and the caller's, its row holds the state and the response, and
  -- the event is the last record of the audit log.
  pub record Recorded (v : Reservation) (s : IdempotencyState) (d : Dict) (before after : Db)
      : Type 0 where
    pub row : IdempotencyRow
    pub found : find_row v.key before.idempotency_keys ≡ some row
    pub owned : owned_by v row ≡ true
    pub stored : find_row v.key after.idempotency_keys ≡ some (finished s d now row)
    pub logged :
        after.audit_log
        ≡ before.audit_log
          ++ next_record p e now before.audit_next (tenant_rows e.tenant_id before.audit_log) ∷ []

  abbrev pub with_record : Db → Db
  with_record db = record db {
    audit_log =
        db.audit_log
        ++ next_record p e now db.audit_next (tenant_rows e.tenant_id db.audit_log) ∷ [];
    audit_next = db.audit_next + 1;
  }

  pub append_ok :
      (db : Db) (r : AuditRecord)
      → (append_in_transaction p now e db).0 ≡ ok r
      → (append_in_transaction p now e db).1 ≡ with_record db
  append_ok db r h = elim (append_cases p now e db) [
    | inl (x, failed) ↦ absurd (cc (h, failed))
    | inr done ↦ rw done
  ]

  with_record-Recorded :
      (v : Reservation) (s : IdempotencyState) (d : Dict) (db : Db) (r : IdempotencyRow)
      → find_row v.key db.idempotency_keys ≡ some r
      → owned_by v r ≡ true
      → Recorded v s d db (with_record (with_finished v s d now db))
  with_record-Recorded v s d db r found owned = record {
    row = r;
    found = found;
    owned = owned;
    stored = ground (arith, find_row-update_owned v s d now v.key db.idempotency_keys);
    logged = refl;
  }

  finish_body_ok :
      (v : Reservation) (s : IdempotencyState) (d : Dict) (db : Db)
      → IsSound db
      → (finish_body p now e v s (some d) db).0 ≡ ok tt
      → Recorded v s d db (finish_body p now e v s (some d) db).1
  unfolding finish_body
  finish_body_ok v s d db w h =
      let m = finish_in_transaction now v s (some d) in
      let rest : Action (Unit {0}) = append_in_transaction p now e >>= λ _. pure tt in
      let (_, ended, whole) = bind_ok m (λ _. rest) db tt h in
      let h' : (rest (m db).1).0 ≡ ok tt =
        ap (λ (y : Result (Unit {0}) × Db). y.0) (sym whole) ∙ h in
      let (r, appended, tail) =
        bind_ok (append_in_transaction p now e) (λ _. pure tt) (m db).1 tt h' in
      let (row, found, owned, updated) = owned_row now v s d db w ended in
      let same =
        ap (λ (y : Result (Unit {0}) × Db). y.1) (whole ∙ tail)
        ∙ append_ok (m db).1 r appended
        ∙ ap with_record updated in
      subst (Recorded v s d db) (sym same) (with_record-Recorded v s d db row found owned)

  finish_for_ok :
      (c : Option ℤ) (fault : Fault) (key : String) (s : IdempotencyState) (d : Dict) (db : Db)
      → IsSound db
      → (finish_for p c fault now e key s (some d) db).0 ≡ ok tt
      → (company_id : ℤ) × (c ≡ some company_id)
        × Recorded
            (reservation_of e company_id key)
            s
            d
            db
            (finish_for p c fault now e key s (some d) db).1
  finish_for_ok none fault key s d db w h = absurd (cc h)
  finish_for_ok (some c) fault key s d db w h =
      let v = reservation_of e c key in
      let same = transaction_ok fault (finish_body p now e v s (some d)) db tt h in
      (
        c,
        refl,
        subst (λ (y : Result (Unit {0}) × Db). Recorded v s d db y.1) (sym same)
            (finish_body_ok v s d db w (ap (λ (y : Result (Unit {0}) × Db). y.0) (sym same) ∙ h)),
      )

  -- If `finish` returns on a sound table, the event has a company, the row of the key was in
  -- progress and owned by the request of the event, it now holds the state and the response, and
  -- the event's record stands last in the audit log.
  pub finish-Recorded :
      (fault : Fault) (key : String) (s : IdempotencyState) (d : Dict) (db : Db)
      → IsSound db
      → (finish p fault now e key s (some d) db).0 ≡ ok tt
      → (company_id : ℤ) × (e.company_id ≡ some company_id)
        × Recorded
            (reservation_of e company_id key)
            s
            d
            db
            (finish p fault now e key s (some d) db).1
  unfolding finish
  finish-Recorded fault key s d db w h = finish_for_ok e.company_id fault key s d db w h
