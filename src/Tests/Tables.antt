-- ===== src/Tests/Tables.antt =====
-- The storage theorems on small tables.
use odoo_mcp.Prelude.{pos, ◌≡◌, refl, none, some, [], ◌∷◌, arith, inl, eq_iff, ap}
use odoo_mcp.Json.{empty, entry, str}
use odoo_mcp.Storage.Models.{
  AuditEvent, IdempotencyRow, IdempotencyDecision, IdempotencyState, succeeded, failed, reserved,
  idempotency_transition,
}
use odoo_mcp.Storage.Database.{Db, empty_db, healthy, confirmation_lost, ok, err}
use odoo_mcp.Storage.Audit.{append, check_chain}
use odoo_mcp.Storage.Audit.Chain.{IsChained, append-IsChained}
use odoo_mcp.Storage.Idempotency.{
  RowKey, Reservation, reserve_in_transaction, reserve, finish, new_row, request_hash, find_row,
}
use odoo_mcp.Storage.Idempotency.Reserve.{busy, reserve_exclusive, reserve_frame}
use odoo_mcp.Storage.Idempotency.Branches.{IsSound}
use odoo_mcp.Storage.Put.{put}
use odoo_mcp.Storage.Idempotency.Finish.{
  recorded, recorded_row, finish_lem, finish_then_replay, finish_once,
}
use odoo_mcp.Policy.WriteSafety.Event.{event}
use odoo_mcp.Tests.Samples.{platform, request}
use odoo_mcp.Tests.Runs.{opened}

abbrev pub attempted : AuditEvent
attempted = event (request "r1" 10) "attempted" none none []

pub empty-IsChained : IsChained platform []
unfolding opened check_chain
empty-IsChained t = refl

append-IsChained_example :
    IsChained platform (append platform confirmation_lost 5 attempted empty_db).1.audit_log
append-IsChained_example =
    append-IsChained platform confirmation_lost 5 attempted empty_db empty-IsChained

abbrev own : Reservation
own = record {
  key = record { tenant_id = "t"; tool_name = "tool"; idempotency_key = "k" };
  company_id = pos 1;
  owner_request_id = "r1";
}

abbrev rival : Reservation
rival = record own { owner_request_id = "r2" }

abbrev other_key : RowKey
other_key = record { tenant_id = "t"; tool_name = "tool"; idempotency_key = "j" }

abbrev granted : Db
granted = (reserve_in_transaction platform 10 own empty empty_db).1

granted-IsSound : IsSound granted
unfolding opened
granted-IsSound = (omega arith, refl, refl, refl, tt)

abbrev pub first_decision : IdempotencyDecision
first_decision = record {
  disposition = reserved;
  state = IdempotencyState.in_progress;
  owner_request_id = "r1";
  response = none;
  expires_at = 86400000010;
}

-- Long after it would have expired, the reservation in progress still stands.
reserve_exclusive_example :
    reserve_in_transaction platform 99999999999999 rival (entry "a" (str "b") empty) granted
    ≡ (ok (busy (new_row own (request_hash platform (pos 1) empty) 10 1)), granted)
unfolding opened
reserve_exclusive_example =
    reserve_exclusive platform 10 99999999999999 own rival empty (entry "a" (str "b") empty)
      empty_db first_decision tt refl refl refl refl

abbrev row : IdempotencyRow
row = new_row own (request_hash platform (pos 1) empty) 10 1

finish_lem_example :
    finish healthy 20 own succeeded (some empty) granted
    ≡ (ok tt, record granted { idempotency_keys = recorded_row succeeded empty 20 row ∷ [] })
unfolding opened put
finish_lem_example = finish_lem 20 own succeeded empty granted granted-IsSound refl refl

finish_then_replay_example :
    ((finish healthy 20 own succeeded (some empty) granted).0 ≡ ok tt)
    × (reserve_in_transaction platform 30 rival empty
          (finish healthy 20 own succeeded (some empty) granted).1
        ≡ (
          ok (recorded succeeded empty row),
          (finish healthy 20 own succeeded (some empty) granted).1,
        ))
unfolding opened
finish_then_replay_example =
    finish_then_replay 20 own succeeded empty granted row granted-IsSound refl refl refl refl
      platform 30 rival empty refl refl refl (inl (omega arith))

finish_once_example :
    finish healthy 40 own failed
      (some empty)
      (finish healthy 20 own succeeded (some empty) granted).1
    ≡ (err idempotency_transition, (finish healthy 20 own succeeded (some empty) granted).1)
unfolding opened
finish_once_example =
    finish_once 20 own succeeded empty granted row granted-IsSound refl refl refl refl 40 own failed
      empty refl refl refl

reserve_frame_example :
    find_row other_key (reserve platform healthy 10 own empty granted).1.idempotency_keys
    ≡ find_row other_key granted.idempotency_keys
reserve_frame_example =
    reserve_frame platform healthy 10 own empty granted other_key granted-IsSound
      (λ e. cc ((eq_iff "j" "k").1 (ap (λ (k : RowKey). k.idempotency_key) e)))
