-- ===== src/Storage/Execution/Grant.antt =====
-- Proofs about a `begin` that grants a reservation.
use odoo_mcp.Prelude.{
  ℕ, ℤ, String, Bool, true, false, ◌≡◌, refl, sym, ◌∙◌, ap, Option, none, some, arith,
}
use odoo_mcp.Json.{Dict}
use odoo_mcp.Storage.Platform.{Platform}
use odoo_mcp.Storage.Models.{AuditEvent, IdempotencyDecision, reserved}
use odoo_mcp.Storage.Database.{Db, Result, ok, Action, Fault, transaction_ok, bind_ok, pure, ◌>>=◌}
use odoo_mcp.Storage.Audit.{append_in_transaction}
use odoo_mcp.Storage.Idempotency.{Reservation, reserve_in_transaction}
use odoo_mcp.Storage.Execution.{
  append_if, is_reserved, begin, begin_for, begin_body, reservation_of,
}
use odoo_mcp.Storage.Execution.Record.{with_record, append_ok}

module _ (p : Platform) (now : ℕ) (e : AuditEvent) where
  append_if_granted :
      (b : Bool) (c d : IdempotencyDecision) (db : Db)
      → b ≡ is_reserved c.disposition
      → (append_if p b now e c db).0 ≡ ok d
      → d.disposition ≡ reserved
      → (c ≡ d)
        × ((append_if p b now e c db).1 ≡ (append_in_transaction p now e db).1)
        × ((append_in_transaction p now e db).1 ≡ with_record p now e db)
  unfolding append_if
  append_if_granted false c d db r x g = ground arith
  append_if_granted true c d db r x g =
      let append_then : Action IdempotencyDecision =
        append_in_transaction p now e >>= λ _. pure c in
      let (a, appended, same) = bind_ok (append_in_transaction p now e) (λ _. pure c) db d x in
      let q : ok c ≡ ok d = ap (λ (y : Result IdempotencyDecision × Db). y.0) (sym same) ∙ x in
      (
        cc q,
        ap (λ (y : Result IdempotencyDecision × Db). y.1) same,
        append_ok p now e db a appended,
      )

  begin_body_granted :
      (v : Reservation) (payload : Dict) (db : Db) (d : IdempotencyDecision)
      → (begin_body p now e v payload db).0 ≡ ok d
      → d.disposition ≡ reserved
      → ((reserve_in_transaction p now v payload db).0 ≡ ok d)
        × ((begin_body p now e v payload db).1
            ≡ (append_in_transaction p now e (reserve_in_transaction p now v payload db).1).1)
        × ((begin_body p now e v payload db).1
            ≡ with_record p now e (reserve_in_transaction p now v payload db).1)
  unfolding begin_body
  begin_body_granted v payload db d x g =
      let reserve = reserve_in_transaction p now v payload in
      let then_append =
        λ (c : IdempotencyDecision). append_if p (is_reserved c.disposition) now e c in
      let (c, granted, same) = bind_ok reserve then_append db d x in
      let y : (then_append c (reserve db).1).0 ≡ ok d =
        ap (λ (y : Result IdempotencyDecision × Db). y.0) (sym same) ∙ x in
      let (cd, appended, logged) =
        append_if_granted (is_reserved c.disposition) c d (reserve db).1 refl y g in
      let after = ap (λ (y : Result IdempotencyDecision × Db). y.1) same ∙ appended in
      (granted ∙ ap ok cd, after, after ∙ logged)

  begin_for_granted :
      (c : Option ℤ) (fault : Fault) (key : String) (payload : Dict) (db : Db)
      (d : IdempotencyDecision)
      → (begin_for p c fault now e key payload db).0 ≡ ok d
      → d.disposition ≡ reserved
      → (company_id : ℤ) × (c ≡ some company_id)
        × (let v = reservation_of e company_id key in
            ((reserve_in_transaction p now v payload db).0 ≡ ok d)
            × ((begin_for p c fault now e key payload db).1
                ≡ (append_in_transaction p now e (reserve_in_transaction p now v payload db).1).1)
            × ((begin_for p c fault now e key payload db).1
                ≡ with_record p now e (reserve_in_transaction p now v payload db).1))
  begin_for_granted none fault key payload db d x g = absurd (cc)
  begin_for_granted (some c) fault key payload db d x g =
      let v = reservation_of e c key in
      let same = transaction_ok fault (begin_body p now e v payload) db d x in
      let (granted, appended, logged) =
        begin_body_granted v payload db d
          (ap (λ (y : Result IdempotencyDecision × Db). y.0) (sym same) ∙ x) g in
      let after = ap (λ (y : Result IdempotencyDecision × Db). y.1) same in
      (c, refl, (granted, after ∙ appended, after ∙ logged))

  -- If `begin` grants a reservation, the event has a company, the reservation was granted to that
  -- company in the tables as they were, and the tables are those after the reservation and the
  -- append: those that the reservation left, with the event's record at the end of the audit log.
  pub begin_granted :
      (fault : Fault) (key : String) (payload : Dict) (db : Db) (d : IdempotencyDecision)
      → (begin p fault now e key payload db).0 ≡ ok d
      → d.disposition ≡ reserved
      → (company_id : ℤ) × (e.company_id ≡ some company_id)
        × (let v = reservation_of e company_id key in
            ((reserve_in_transaction p now v payload db).0 ≡ ok d)
            × ((begin p fault now e key payload db).1
                ≡ (append_in_transaction p now e (reserve_in_transaction p now v payload db).1).1)
            × ((begin p fault now e key payload db).1
                ≡ with_record p now e (reserve_in_transaction p now v payload db).1))
  unfolding begin
  begin_granted fault key payload db d x g =
      begin_for_granted e.company_id fault key payload db d x g
