-- ===== src/Storage/Idempotency/Finish.antt =====
-- Proofs about `finish_in_transaction` and `finish`.
use odoo_mcp.Prelude.{
  ℕ, ◌<◌, Bool, true, false, ◌&&◌, not, ◌≡◌, refl, ◌⊎◌, inl, inr, Option, none, some, eq_iff, arith,
  ◌==◌, Bool-cases, Option-cases, sym, ◌∙◌, if◌then◌else◌,
}
use odoo_mcp.Json.{Dict}
use odoo_mcp.Storage.Platform.{Platform}
use odoo_mcp.Storage.Models.{
  IdempotencyRow, IdempotencyState, unknown, replay, IdempotencyDecision, value_error,
  idempotency_transition,
}
use odoo_mcp.Storage.Database.{
  Db, Result, ok, err, Fault, healthy, transaction, transaction_induction,
}
use odoo_mcp.Storage.Idempotency.{
  RowKey, find_row, Reservation, request_hash, reserve_in_transaction, is_in_progress, owned_by,
  finished, update_owned, count_owned, finish_in_transaction, finish,
}
use odoo_mcp.Storage.Idempotency.Updates.{
  updated, update_owned-IsWellFormed, find_row-update_owned, count_owned_lem,
}
use odoo_mcp.Storage.Put.{put}
use odoo_mcp.Storage.Idempotency.Rows.{find_row-matches}
use odoo_mcp.Storage.Idempotency.Owner.{row_id, is_owner, owned_by_lem, update_owned-put}
use odoo_mcp.Storage.Idempotency.Reserve.{reserve_in_transaction-accepted}
use odoo_mcp.Storage.Idempotency.Branches.{
  IsSound, accepted, check_reservation_lem, reserve_found-some,
}

abbrev pub with_finished : Reservation → IdempotencyState → Dict → ℕ → Db → Db
with_finished v s d now db = record db {
  idempotency_keys = update_owned v s d now db.idempotency_keys;
}

-- The branches of `finish_in_transaction`.
abbrev pub branches : ℕ → Reservation → IdempotencyState → Option Dict → Db → Result (Unit {0}) × Db
branches now v s none db = (if accepted v then err idempotency_transition else err value_error, db)
branches now v s (some d) db =
    if accepted v
    then (if is_in_progress s then (err idempotency_transition, db) else (
      if count_owned v db.idempotency_keys == 1 then ok tt else err idempotency_transition,
      with_finished v s d now db,
    ))
    else (err value_error, db)

pub finish_in_transaction_lem :
    (now : ℕ) (v : Reservation) (s : IdempotencyState) (o : Option Dict) (db : Db)
    → finish_in_transaction now v s o db ≡ branches now v s o db
unfolding finish_in_transaction
finish_in_transaction_lem now v s none db = ground (arith, check_reservation_lem v db)
finish_in_transaction_lem now v s (some d) db = ground (arith, check_reservation_lem v db)

pub finish_in_transaction-IsSound :
    (now : ℕ) (v : Reservation) (s : IdempotencyState) (o : Option Dict) (db : Db)
    → IsSound db
    → IsSound (finish_in_transaction now v s o db).1
finish_in_transaction-IsSound now v s none db w = rw finish_in_transaction_lem w
finish_in_transaction-IsSound now v s (some d) db w =
    rw finish_in_transaction_lem
      (ground (arith, update_owned-IsWellFormed v s d now db.idempotency_next db.idempotency_keys))

-- Finishing touches no other table.
pub finish_in_transaction-audit_log :
    (now : ℕ) (v : Reservation) (s : IdempotencyState) (o : Option Dict) (db : Db)
    → (finish_in_transaction now v s o db).1.audit_log ≡ db.audit_log
finish_in_transaction-audit_log now v s none db = rw finish_in_transaction_lem
finish_in_transaction-audit_log now v s (some d) db = rw finish_in_transaction_lem (ground arith)

-- A row stays under its key, and keeps the time at which it expires.
pub finish_in_transaction-expires_at :
    (now : ℕ) (v : Reservation) (s : IdempotencyState) (o : Option Dict) (db : Db) (k : RowKey)
    (r : IdempotencyRow)
    → find_row k db.idempotency_keys ≡ some r
    → (r' : IdempotencyRow) × (find_row k (finish_in_transaction now v s o db).1.idempotency_keys
        ≡ some r')
      × (r'.expires_at ≡ r.expires_at)
finish_in_transaction-expires_at now v s none db k r f = (r, rw finish_in_transaction_lem f, refl)
finish_in_transaction-expires_at now v s (some d) db k r f =
    elim (Bool-cases (accepted v && not (is_in_progress s))) [
      | inl final ↦ (
        updated v s d now r,
        rw finish_in_transaction_lem
            (ground (arith, find_row-update_owned v s d now k db.idempotency_keys)),
        ground arith,
      )
      | inr refused ↦ (r, rw finish_in_transaction_lem (ground arith), refl)
    ]

-- Finishing keeps the table well formed, whatever the arguments and however the transaction ends.
pub finish-IsSound :
    (fault : Fault) (now : ℕ) (v : Reservation) (s : IdempotencyState) (o : Option Dict) (db : Db)
    → IsSound db
    → IsSound (finish fault now v s o db).1
unfolding finish
finish-IsSound fault now v s o db w =
    transaction_induction IsSound fault (finish_in_transaction now v s o) db w
      (finish_in_transaction-IsSound now v s o db w)

abbrev pub owns : Reservation → Option IdempotencyRow → Bool
owns v none = false
owns v (some r) = owned_by v r

-- A final state with a response, on the row found before it.
finish_found :
    (now : ℕ) (v : Reservation) (s : IdempotencyState) (d : Dict) (db : Db)
    → IsSound db
    → accepted v ≡ true
    → is_in_progress s ≡ false
    → finish healthy now v s (some d) db ≡ (
        if owns v (find_row v.key db.idempotency_keys)
        then (ok tt, with_finished v s d now db)
        else (err idempotency_transition, db))
unfolding finish transaction
finish_found now v s d db w a f =
    rw finish_in_transaction_lem
      (ground (arith, count_owned_lem db.idempotency_next v db.idempotency_keys w))

-- The row as it is recorded, column by column.
abbrev pub recorded_row : IdempotencyState → Dict → ℕ → IdempotencyRow → IdempotencyRow
recorded_row s d now r = record {
  id = r.id;
  tenant_id = r.tenant_id;
  company_id = r.company_id;
  tool_name = r.tool_name;
  idempotency_key = r.idempotency_key;
  request_hash = r.request_hash;
  state = s;
  owner_request_id = r.owner_request_id;
  response = some d;
  expires_at = r.expires_at;
  created_at = r.created_at;
  updated_at = now;
}

-- How a finish of the row found ends: with the row recorded, if the caller owns it.
abbrev pub finished_outcome :
    Reservation → IdempotencyState → Dict → ℕ → Option IdempotencyRow → Db → Result (Unit {0}) × Db
finished_outcome v s d now none db = (err idempotency_transition, db)
finished_outcome v s d now (some r) db =
    if is_owner v r
    then (
      ok tt,
      record db { idempotency_keys = put row_id (recorded_row s d now r) db.idempotency_keys },
    )
    else (err idempotency_transition, db)

-- In a healthy transaction on a well-formed table, with acceptable arguments, a final state and a
-- response: if the row of the key is of the caller's company and request and in progress, `finish`
-- returns, the row with its id holds the state, the response and the time of the update, its other
-- columns are as they were, and nothing else changes; if the row is not, or there is none, `finish`
-- is refused and nothing changes.
pub finish_lem :
    (now : ℕ) (v : Reservation) (s : IdempotencyState) (d : Dict) (db : Db)
    → IsSound db
    → accepted v ≡ true
    → is_in_progress s ≡ false
    → finish healthy now v s (some d) db
      ≡ finished_outcome v s d now (find_row v.key db.idempotency_keys) db
finish_lem now v s d db w a f =
    finish_found now v s d db w a f ∙ elim (Option-cases (find_row v.key db.idempotency_keys)) [
      | inl missing ↦ rw missing refl
      | inr (r, found) ↦
          let same = owned_by_lem v r (find_row-matches v.key db.idempotency_keys r found) in
          elim (Bool-cases (owned_by v r)) [
            | inl own ↦
                let owner : is_owner v r ≡ true = sym same ∙ own in
                rw
                  (
                    found,
                    own,
                    owner,
                    update_owned-put v s d now db.idempotency_next db.idempotency_keys r w found
                        own,
                  )
                  refl
            | inr other ↦
                let stranger : is_owner v r ≡ false = sym same ∙ other in
                rw (found, other, stranger) refl
          ]
    ]

-- What a later reservation of the same request is told of a finished one.
abbrev pub recorded : IdempotencyState → Dict → IdempotencyRow → IdempotencyDecision
recorded s d r = record {
  disposition = replay;
  state = s;
  owner_request_id = r.owner_request_id;
  response = some d;
  expires_at = r.expires_at;
}

module _ (now : ℕ) (v : Reservation) (s : IdempotencyState) (d : Dict) (db : Db)
    (r : IdempotencyRow) (sound : IsSound db) (good : accepted v ≡ true)
    (final : is_in_progress s ≡ false) (found : find_row v.key db.idempotency_keys ≡ some r)
    (own : owned_by v r ≡ true) where
  after_finish : finish healthy now v s (some d) db ≡ (ok tt, with_finished v s d now db)
  after_finish = rw (finish_found now v s d db sound good final, found, own)

  finished_row :
      find_row v.key (with_finished v s d now db).idempotency_keys ≡ some (finished s d now r)
  finished_row = rw (find_row-update_owned, found, own)

  -- On a well-formed table the owner's healthy finish of a reservation in progress is recorded, and a
  -- later reservation of the same request is answered with the recorded response and changes
  -- nothing, until the row expires; an unknown outcome never expires.
  pub finish_then_replay :
      (p : Platform) (later : ℕ) (w : Reservation) (payload : Dict)
      → w.key ≡ v.key
      → accepted w ≡ true
      → r.request_hash ≡ request_hash p w.company_id payload
      → (later < r.expires_at) ⊎ (s ≡ unknown)
      → let (result, db') = finish healthy now v s (some d) db in
        (result ≡ ok tt)
        × (reserve_in_transaction p later w payload db' ≡ (ok (recorded s d r), db'))
  finish_then_replay p later w payload k a same alive =
      let db' = with_finished v s d now db in
      rw after_finish (
        refl,
        rw
            (
              reserve_in_transaction-accepted p later w payload db' a,
              k,
              finished_row,
              reserve_found-some,
            )
            (ground (arith, eq_iff r.request_hash (request_hash p w.company_id payload))),
      )

  -- On a well-formed table a reservation that its owner has finished in a healthy transaction
  -- cannot be finished again, by anyone.
  pub finish_once :
      (later : ℕ) (w : Reservation) (other : IdempotencyState) (o : Dict)
      → w.key ≡ v.key
      → accepted w ≡ true
      → is_in_progress other ≡ false
      → let db' = (finish healthy now v s (some d) db).1 in
        finish healthy later w other (some o) db' ≡ (err idempotency_transition, db')
  finish_once later w other o k a f =
      let db' = with_finished v s d now db in
      rw after_finish (
        rw
          (
            finish_found later w other o db'
                (update_owned-IsWellFormed v s d now db.idempotency_next db.idempotency_keys final
                  sound)
                a f,
            k,
            finished_row,
          )
          (unfold owned_by in ground arith))
