-- ===== src/Storage/Idempotency/Reserve.antt =====
-- Proofs about `reserve_in_transaction` and `reserve`.
use odoo_mcp.Prelude.{
  ℕ, ◌<◌, true, false, ◌≡◌, ◌≢◌, refl, inl, inr, none, some, str_eq, arith, Bool-cases,
  if◌then◌else◌,
}
use odoo_mcp.Json.{Dict}
use odoo_mcp.Storage.Platform.{Platform}
use odoo_mcp.Storage.Models.{
  IdempotencyRow, IdempotencyState, IdempotencyDisposition, IdempotencyDecision, reserved,
  value_error, payload_mismatch,
}
use odoo_mcp.Storage.Database.{Db, ok, err, Fault, transaction_induction}
use odoo_mcp.Storage.Idempotency.{
  RowKey, find_row, Reservation, new_row, reserve_found, request_hash, reserve_in_transaction,
  reserve,
}
use odoo_mcp.Storage.Idempotency.Branches.{
  IsSound, accepted, branches, check_reservation_lem, reserve_found-IsSound,
  reserve_found-audit_log, reserve_found-frame, reserve_found-some, reserved_row,
}

-- What a second reservation is told of a key whose row is in progress.
abbrev pub busy : IdempotencyRow → IdempotencyDecision
busy r = record {
  disposition = IdempotencyDisposition.in_progress;
  state = IdempotencyState.in_progress;
  owner_request_id = r.owner_request_id;
  response = none;
  expires_at = r.expires_at;
}

module _ (p : Platform) where
  pub reserve_in_transaction-accepted :
      (now : ℕ) (v : Reservation) (payload : Dict) (db : Db)
      → accepted v ≡ true
      → reserve_in_transaction p now v payload db
        ≡ reserve_found v
            (request_hash p v.company_id payload)
            now
            (find_row v.key db.idempotency_keys)
            db
  unfolding reserve_in_transaction
  reserve_in_transaction-accepted now v payload db a = ground (arith, check_reservation_lem v db)

  reserve_in_transaction-refused :
      (now : ℕ) (v : Reservation) (payload : Dict) (db : Db)
      → accepted v ≡ false
      → reserve_in_transaction p now v payload db ≡ (err value_error, db)
  unfolding reserve_in_transaction
  reserve_in_transaction-refused now v payload db a = ground (arith, check_reservation_lem v db)

  pub reserve_in_transaction-IsSound :
      (now : ℕ) (v : Reservation) (payload : Dict) (db : Db)
      → IsSound db
      → IsSound (reserve_in_transaction p now v payload db).1
  reserve_in_transaction-IsSound now v payload db w = elim (Bool-cases (accepted v)) [
    | inr bad ↦ rw (reserve_in_transaction-refused now v payload db bad) w
    | inl good ↦ rw (reserve_in_transaction-accepted now v payload db good) (
        reserve_found-IsSound v (request_hash p v.company_id payload) now
          (find_row v.key db.idempotency_keys) db w)
  ]

  -- Reserving touches no other table.
  pub reserve_in_transaction-audit_log :
      (now : ℕ) (v : Reservation) (payload : Dict) (db : Db)
      → (reserve_in_transaction p now v payload db).1.audit_log ≡ db.audit_log
  reserve_in_transaction-audit_log now v payload db = elim (Bool-cases (accepted v)) [
    | inr bad ↦ rw (reserve_in_transaction-refused now v payload db bad)
    | inl good ↦ rw (reserve_in_transaction-accepted now v payload db good) (
        reserve_found-audit_log v (request_hash p v.company_id payload) now
          (find_row v.key db.idempotency_keys) db)
  ]

  -- Reserving keeps the table well formed, whatever the arguments and however the transaction ends.
  pub reserve-IsSound :
      (fault : Fault) (now : ℕ) (v : Reservation) (payload : Dict) (db : Db)
      → IsSound db
      → IsSound (reserve p fault now v payload db).1
  unfolding reserve
  reserve-IsSound fault now v payload db w =
      transaction_induction IsSound fault (reserve_in_transaction p now v payload) db w
        (reserve_in_transaction-IsSound now v payload db w)

  -- A granted reservation leaves its own row under the key.
  pub granted_row :
      (now : ℕ) (v : Reservation) (payload : Dict) (db : Db) (d : IdempotencyDecision)
      → IsSound db
      → (reserve_in_transaction p now v payload db).0 ≡ ok d
      → d.disposition ≡ reserved
      → find_row v.key (reserve_in_transaction p now v payload db).1.idempotency_keys
        ≡ some (new_row v (request_hash p v.company_id payload) now db.idempotency_next)
  granted_row now v payload db d w e q = elim (Bool-cases (accepted v)) [
    | inr bad ↦ absurd (cc (e, reserve_in_transaction-refused now v payload db bad))
    | inl good ↦
        let same = reserve_in_transaction-accepted now v payload db good in
        rw same (
          reserved_row v (request_hash p v.company_id payload) now
            (find_row v.key db.idempotency_keys) db d w refl (rw same at e) q)
  ]

  -- While the row of a key is in progress, whatever the time and whoever asks, a reservation of the
  -- key changes nothing: the same request is told that it is in progress and any other is refused.
  in_progress_blocks :
      (now : ℕ) (v : Reservation) (payload : Dict) (db : Db) (r : IdempotencyRow)
      → accepted v ≡ true
      → find_row v.key db.idempotency_keys ≡ some r
      → r.state ≡ IdempotencyState.in_progress
      → r.response ≡ none
      → reserve_in_transaction p now v payload db ≡ (
          if str_eq r.request_hash (request_hash p v.company_id payload)
          then (ok (busy r), db)
          else (err payload_mismatch, db))
  in_progress_blocks now v payload db r a f s n =
      rw (reserve_in_transaction-accepted now v payload db a, f, reserve_found-some) (ground arith)

  -- Once a reservation is granted on a well-formed table, a second one of its key with acceptable
  -- arguments changes nothing, at any time: it is told
  -- that the first is in progress if the request is the same, and is refused if it is another.
  pub reserve_exclusive :
      (now later : ℕ) (v w : Reservation) (payload other : Dict) (db : Db) (d : IdempotencyDecision)
      → IsSound db
      → (reserve_in_transaction p now v payload db).0 ≡ ok d
      → d.disposition ≡ reserved
      → w.key ≡ v.key
      → accepted w ≡ true
      → let db' = (reserve_in_transaction p now v payload db).1 in
        let h = request_hash p v.company_id payload in
        reserve_in_transaction p later w other db' ≡ (
          if str_eq h (request_hash p w.company_id other)
          then (ok (busy (new_row v h now db.idempotency_next)), db')
          else (err payload_mismatch, db'))
  reserve_exclusive now later v w payload other db d sound e q k a =
      let db' = (reserve_in_transaction p now v payload db).1 in
      let h = request_hash p v.company_id payload in
      in_progress_blocks later w other db' (new_row v h now db.idempotency_next) a
        (rw k (granted_row now v payload db d sound e q)) refl refl

  -- On a well-formed table a reservation leaves the row of every other key as it was, however its
  -- transaction ends.
  pub reserve_frame :
      (fault : Fault) (now : ℕ) (v : Reservation) (payload : Dict) (db : Db) (k : RowKey)
      → IsSound db
      → k ≢ v.key
      → find_row k (reserve p fault now v payload db).1.idempotency_keys
        ≡ find_row k db.idempotency_keys
  unfolding reserve
  reserve_frame fault now v payload db k w ne =
      transaction_induction (λ d. find_row k d.idempotency_keys ≡ find_row k db.idempotency_keys)
        fault (reserve_in_transaction p now v payload) db refl
        (elim (Bool-cases (accepted v)) [
          | inr bad ↦ rw (reserve_in_transaction-refused now v payload db bad)
          | inl good ↦ rw (reserve_in_transaction-accepted now v payload db good) (
              reserve_found-frame v (request_hash p v.company_id payload) now
                (find_row v.key db.idempotency_keys) db k w refl ne)
        ])

  -- While the row of a key has not expired, no reservation of the key is granted.
  pub held_not_reserved :
      (now : ℕ) (v : Reservation) (payload : Dict) (db : Db) (r : IdempotencyRow)
      (d : IdempotencyDecision)
      → find_row v.key db.idempotency_keys ≡ some r
      → now < r.expires_at
      → (reserve_in_transaction p now v payload db).0 ≡ ok d
      → d.disposition ≢ reserved
  held_not_reserved now v payload db r d f alive e q = elim (Bool-cases (accepted v)) [
    | inr bad ↦ cc (e, reserve_in_transaction-refused now v payload db bad)
    | inl good ↦
        let h = request_hash p v.company_id payload in
        let e' : (branches v h now r db).0 ≡ ok d =
          rw (reserve_in_transaction-accepted now v payload db good, f, reserve_found-some) at e in
        ground arith
  ]
