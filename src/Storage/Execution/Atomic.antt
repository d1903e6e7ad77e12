-- ===== src/Storage/Execution/Atomic.antt =====
-- Proofs about `begin` and `finish` on the invariants of the two tables.
use odoo_mcp.Prelude.{ℕ, ℤ, String, Bool, true, false, inl, inr, Option, none, some}
use odoo_mcp.Json.{Dict}
use odoo_mcp.Storage.Platform.{Platform}
use odoo_mcp.Storage.Models.{AuditEvent, IdempotencyState, IdempotencyDecision}
use odoo_mcp.Storage.Database.{Db, Fault, transaction_induction, bind_induction, pure, ◌>>=◌}
use odoo_mcp.Storage.Audit.{append_in_transaction}
use odoo_mcp.Storage.Audit.Chain.{IsChained, append_cases, append_in_transaction-IsChained}
use odoo_mcp.Storage.Idempotency.{Reservation, reserve_in_transaction, finish_in_transaction}
use odoo_mcp.Storage.Idempotency.Reserve.{
  reserve_in_transaction-IsSound, reserve_in_transaction-audit_log,
}
use odoo_mcp.Storage.Idempotency.Branches.{IsSound}
use odoo_mcp.Storage.Idempotency.Finish.{
  finish_in_transaction-IsSound, finish_in_transaction-audit_log,
}
use odoo_mcp.Storage.Execution.{
  append_if, begin_for, finish_for, begin_body, begin, finish_body, finish, is_reserved,
  reservation_of,
}

-- Both tables are as they should be.
pub record IsValid (p : Platform) (db : Db) : Type 0 where
  pub sound : IsSound db
  pub chained : IsChained p db.audit_log

module _ (p : Platform) where
  append-IsSound :
      (now : ℕ) (event : AuditEvent) (db : Db)
      → IsSound db
      → IsSound (append_in_transaction p now event db).1
  append-IsSound now event db w = elim (append_cases p now event db) [
    | inl (e, failed) ↦ rw failed w
    | inr done ↦ rw done w
  ]

  append_in_transaction-IsValid :
      (now : ℕ) (event : AuditEvent) (db : Db)
      → IsValid p db
      → IsValid p (append_in_transaction p now event db).1
  append_in_transaction-IsValid now event db v = record {
    sound = append-IsSound now event db v.sound;
    chained = append_in_transaction-IsChained p now event db v.chained;
  }

  reserve_in_transaction-IsValid :
      (now : ℕ) (w : Reservation) (payload : Dict) (db : Db)
      → IsValid p db
      → IsValid p (reserve_in_transaction p now w payload db).1
  reserve_in_transaction-IsValid now w payload db v = record {
    sound = reserve_in_transaction-IsSound p now w payload db v.sound;
    chained = rw (reserve_in_transaction-audit_log p now w payload db) v.chained;
  }

  finish_in_transaction-IsValid :
      (now : ℕ) (w : Reservation) (s : IdempotencyState) (o : Option Dict) (db : Db)
      → IsValid p db
      → IsValid p (finish_in_transaction now w s o db).1
  finish_in_transaction-IsValid now w s o db v = record {
    sound = finish_in_transaction-IsSound now w s o db v.sound;
    chained = rw (finish_in_transaction-audit_log now w s o db) v.chained;
  }

  append_if-IsValid :
      (b : Bool) (now : ℕ) (event : AuditEvent) (d : IdempotencyDecision) (db : Db)
      → IsValid p db
      → IsValid p (append_if p b now event d db).1
  unfolding append_if
  append_if-IsValid false now event d db v = v
  append_if-IsValid true now event d db v =
      bind_induction (IsValid p) (append_in_transaction p now event) (λ _. pure d) db
        (append_in_transaction-IsValid now event db v) (λ _ _ h. h)

  begin_body-IsValid :
      (now : ℕ) (event : AuditEvent) (w : Reservation) (payload : Dict) (db : Db)
      → IsValid p db
      → IsValid p (begin_body p now event w payload db).1
  unfolding begin_body
  begin_body-IsValid now event w payload db v =
      bind_induction (IsValid p) (reserve_in_transaction p now w payload)
        (λ d. append_if p (is_reserved d.disposition) now event d) db
        (reserve_in_transaction-IsValid now w payload db v)
        (λ d. append_if-IsValid (is_reserved d.disposition) now event d)

  finish_body-IsValid :
      (now : ℕ) (event : AuditEvent) (w : Reservation) (s : IdempotencyState) (o : Option Dict)
      (db : Db)
      → IsValid p db
      → IsValid p (finish_body p now event w s o db).1
  unfolding finish_body
  finish_body-IsValid now event w s o db v =
      bind_induction (IsValid p) (finish_in_transaction now w s o)
        (λ _. append_in_transaction p now event >>= λ _. pure tt) db
        (finish_in_transaction-IsValid now w s o db v)
        (λ _ d h.
          bind_induction (IsValid p) (append_in_transaction p now event) (λ _. pure tt) d
            (append_in_transaction-IsValid now event d h) (λ _ _ g. g))

  begin_for-IsValid :
      (c : Option ℤ) (fault : Fault) (now : ℕ) (event : AuditEvent) (key : String) (payload : Dict)
      (db : Db)
      → IsValid p db
      → IsValid p (begin_for p c fault now event key payload db).1
  begin_for-IsValid none fault now event key payload db v = v
  begin_for-IsValid (some c) fault now event key payload db v =
      let w = reservation_of event c key in
      transaction_induction (IsValid p) fault (begin_body p now event w payload) db v
        (begin_body-IsValid now event w payload db v)

  finish_for-IsValid :
      (c : Option ℤ) (fault : Fault) (now : ℕ) (event : AuditEvent) (key : String)
      (s : IdempotencyState) (o : Option Dict) (db : Db)
      → IsValid p db
      → IsValid p (finish_for p c fault now event key s o db).1
  finish_for-IsValid none fault now event key s o db v = v
  finish_for-IsValid (some c) fault now event key s o db v =
      let w = reservation_of event c key in
      transaction_induction (IsValid p) fault (finish_body p now event w s o) db v
        (finish_body-IsValid now event w s o db v)

  -- `begin` keeps both tables valid, whatever its arguments and however the transaction ends.
  pub begin-IsValid :
      (fault : Fault) (now : ℕ) (event : AuditEvent) (key : String) (payload : Dict) (db : Db)
      → IsValid p db
      → IsValid p (begin p fault now event key payload db).1
  unfolding begin
  begin-IsValid fault now event key payload db v =
      begin_for-IsValid event.company_id fault now event key payload db v

  -- `finish` keeps both tables valid, whatever its arguments and however the transaction ends.
  pub finish-IsValid :
      (fault : Fault) (now : ℕ) (event : AuditEvent) (key : String) (s : IdempotencyState)
      (o : Option Dict) (db : Db)
      → IsValid p db
      → IsValid p (finish p fault now event key s o db).1
  unfolding finish
  finish-IsValid fault now event key s o db v =
      finish_for-IsValid event.company_id fault now event key s o db v
