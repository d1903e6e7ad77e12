-- ===== src/Storage/Idempotency/Branches.antt =====
-- Lemmas on the branches of `reserve_in_transaction`, one SELECT result after another.
use odoo_mcp.Prelude.{
  ℕ, pos, leb_ℤ, String, Bool, true, ◌&&◌, not, ◌≡◌, ◌≢◌, Option, none, some, str_eq, eq_refl,
  arith, is_blank, if◌then◌else◌,
}
use odoo_mcp.Storage.Models.{
  IdempotencyRow, IdempotencyDecision, reserved, value_error, payload_mismatch,
  idempotency_transition,
}
use odoo_mcp.Storage.Database.{Db, Result, ok, err}
use odoo_mcp.Storage.Idempotency.{
  RowKey, matches, find_row, delete_id, row_invalid, Reservation, check_reservation, new_row,
  insert_row, replace_row, answer_row, reserve_found, decision_on, row_expired,
}
use odoo_mcp.Storage.Idempotency.Rows.{
  IsWellFormed, matches_key, none-find_row, find_row-matches, find_row-append, append-IsWellFormed,
}
use odoo_mcp.Storage.Idempotency.Updates.{
  delete_id-IsWellFormed, find_row-delete_id_self, find_row-delete_id_ne,
}

-- The table of the database is well formed.
abbrev pub IsSound : Db → Type 0
IsSound db = IsWellFormed db.idempotency_next db.idempotency_keys

-- The arguments pass the checks at the head of the operation.
abbrev pub accepted : Reservation → Bool
accepted v =
    not (is_blank v.tenant_id)
    && (not (leb_ℤ v.company_id (pos 0))
        && (not (is_blank v.tool_name)
            && (not (is_blank v.idempotency_key) && not (is_blank v.owner_request_id))))

pub check_reservation_lem :
    (v : Reservation) (db : Db)
    → check_reservation v db ≡ (if accepted v then ok tt else err value_error, db)
unfolding check_reservation
check_reservation_lem v db = ground arith

pub matches_self :
    (v : Reservation) (h : String) (now id : ℕ) → matches v.key (new_row v h now id) ≡ true
unfolding matches
matches_self v h now id =
    ground (arith, eq_refl v.tenant_id, eq_refl v.tool_name, eq_refl v.idempotency_key)

pub insert_row-free :
    (v : Reservation) (h : String) (now : ℕ) (db : Db)
    → find_row v.key db.idempotency_keys ≡ none
    → find_row v.key (insert_row v h now db).1.idempotency_keys
      ≡ some (new_row v h now db.idempotency_next)
unfolding insert_row
insert_row-free v h now db f =
    rw (none-find_row v.key db.idempotency_keys f, find_row-append, f, matches_self)

pub insert_row-IsSound :
    (v : Reservation) (h : String) (now : ℕ) (db : Db)
    → IsSound db
    → IsSound (insert_row v h now db).1
unfolding insert_row
insert_row-IsSound v h now db w = ground (
  arith,
  append-IsWellFormed db.idempotency_next db.idempotency_keys (new_row v h now db.idempotency_next),
)

abbrev pub without_row : IdempotencyRow → Db → Db
without_row r db = record db { idempotency_keys = delete_id r.id db.idempotency_keys }

-- The branches on a row that is there, in the order of the code.
abbrev pub branches :
    Reservation → String → ℕ → IdempotencyRow → Db → Result IdempotencyDecision × Db
branches v h now r db =
    if row_invalid r
    then (err idempotency_transition, db)
    else (if row_expired now r
        then insert_row v h now (without_row r db)
        else (if str_eq r.request_hash h
            then (ok (decision_on r), db)
            else (err payload_mismatch, db)))

pub reserve_found-some :
    (v : Reservation) (h : String) (now : ℕ) (r : IdempotencyRow) (db : Db)
    → reserve_found v h now (some r) db ≡ branches v h now r db
unfolding reserve_found replace_row answer_row
reserve_found-some v h now r db = ground arith

-- Whether it reserves, replays or raises, the table stays well formed.
pub reserve_found-IsSound :
    (v : Reservation) (h : String) (now : ℕ) (o : Option IdempotencyRow) (db : Db)
    → IsSound db
    → IsSound (reserve_found v h now o db).1
reserve_found-IsSound v h now none db w = unfold reserve_found in insert_row-IsSound v h now db w
reserve_found-IsSound v h now (some r) db w = rw reserve_found-some (
    ground (
      arith,
      insert_row-IsSound v h now (without_row r db),
      delete_id-IsWellFormed db.idempotency_next r.id db.idempotency_keys,
    ))

pub reserved_row :
    (v : Reservation) (h : String) (now : ℕ) (o : Option IdempotencyRow) (db : Db)
    (d : IdempotencyDecision)
    → IsSound db
    → find_row v.key db.idempotency_keys ≡ o
    → (reserve_found v h now o db).0 ≡ ok d
    → d.disposition ≡ reserved
    → find_row v.key (reserve_found v h now o db).1.idempotency_keys
      ≡ some (new_row v h now db.idempotency_next)
reserved_row v h now none db d w f e q = unfold reserve_found in insert_row-free v h now db f
reserved_row v h now (some r) db d w f e q =
    let e' : (branches v h now r db).0 ≡ ok d = rw reserve_found-some at e in
    rw reserve_found-some (
      ground (
        arith,
        insert_row-free v h now (without_row r db),
        find_row-delete_id_self db.idempotency_next v.key r db.idempotency_keys,
      ))

pub reserve_found-frame :
    (v : Reservation) (h : String) (now : ℕ) (o : Option IdempotencyRow) (db : Db) (k : RowKey)
    → IsSound db
    → find_row v.key db.idempotency_keys ≡ o
    → k ≢ v.key
    → find_row k (reserve_found v h now o db).1.idempotency_keys ≡ find_row k db.idempotency_keys
reserve_found-frame v h now none db k w f ne =
    unfold reserve_found insert_row in
    ground (
      arith,
      find_row-append k db.idempotency_keys (new_row v h now db.idempotency_next),
      matches_key k (new_row v h now db.idempotency_next),
    )
reserve_found-frame v h now (some r) db k w f ne = rw reserve_found-some (
    unfold insert_row in
    ground (
      arith,
      find_row-append k (delete_id r.id db.idempotency_keys) (new_row v h now db.idempotency_next),
      matches_key k (new_row v h now db.idempotency_next),
      find_row-matches v.key db.idempotency_keys r,
      matches_key v.key r,
      matches_key k r,
      find_row-delete_id_ne db.idempotency_next k v.key r db.idempotency_keys,
    ))

pub reserve_found-audit_log :
    (v : Reservation) (h : String) (now : ℕ) (o : Option IdempotencyRow) (db : Db)
    → (reserve_found v h now o db).1.audit_log ≡ db.audit_log
reserve_found-audit_log v h now none db = unfold reserve_found insert_row in ground arith
reserve_found-audit_log v h now (some r) db =
    rw reserve_found-some (unfold insert_row in ground arith)
