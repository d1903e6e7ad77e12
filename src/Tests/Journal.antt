-- ===== src/Tests/Journal.antt =====
-- The theorems on the journal of executions, at small tables.
use odoo_mcp.Prelude.{ℤ, ◌≡◌, ◌⊎◌, refl, some, List, map}
use odoo_mcp.Json.{empty}
use odoo_mcp.Storage.Models.{AuditEvent, AuditRecord, succeeded}
use odoo_mcp.Storage.Database.{Db, empty_db, healthy, confirmation_lost, ok}
use odoo_mcp.Storage.Event.{record_values}
use odoo_mcp.Storage.Audit.{append, append_in_transaction, check_chain}
use odoo_mcp.Storage.Audit.Tamper.{tamper_evident, Collision}
use odoo_mcp.Storage.Idempotency.{reserve_in_transaction}
use odoo_mcp.Storage.Execution.{begin, finish, reservation_of}
use odoo_mcp.Storage.Execution.Atomic.{IsValid, begin-IsValid, finish-IsValid}
use odoo_mcp.Storage.Execution.Record.{Recorded, with_record, finish-Recorded}
use odoo_mcp.Storage.Execution.Grant.{begin_granted}
use odoo_mcp.Tests.Samples.{platform}
use odoo_mcp.Tests.Runs.{opened}
use odoo_mcp.Tests.Tables.{attempted, first_decision, empty-IsChained}

empty-IsValid : IsValid platform empty_db
empty-IsValid = record { sound = tt; chained = empty-IsChained }

begin-IsValid_example :
    IsValid platform (begin platform healthy 10 attempted "key" empty empty_db).1
begin-IsValid_example =
    begin-IsValid platform healthy 10 attempted "key" empty empty_db empty-IsValid

abbrev begun : Db
begun = (begin platform healthy 10 attempted "key" empty empty_db).1

begun-IsValid : IsValid platform begun
begun-IsValid = begin-IsValid platform healthy 10 attempted "key" empty empty_db empty-IsValid

finish-IsValid_example :
    IsValid platform
      (finish platform confirmation_lost 20 attempted "key" succeeded (some empty) begun).1
finish-IsValid_example =
    finish-IsValid platform confirmation_lost 20 attempted "key" succeeded (some empty) begun
      begun-IsValid

begin_granted_example :
    (company_id : ℤ) × (attempted.company_id ≡ some company_id)
    × (let v = reservation_of attempted company_id "key" in
        ((reserve_in_transaction platform 10 v empty empty_db).0 ≡ ok first_decision)
        × (begun
            ≡ (append_in_transaction platform 10 attempted
                (reserve_in_transaction platform 10 v empty empty_db).1).1)
        × (begun
            ≡ with_record platform 10 attempted
                (reserve_in_transaction platform 10 v empty empty_db).1))
unfolding opened
begin_granted_example =
    begin_granted platform 10 attempted healthy "key" empty empty_db first_decision refl refl

abbrev other_attempted : AuditEvent
other_attempted = record attempted { request_id = "r2" }

abbrev log : List AuditRecord
log = (append platform healthy 5 attempted empty_db).1.audit_log

-- The sample hash is too weak to tell the two requests apart.
abbrev other_log : List AuditRecord
other_log = (append platform healthy 6 other_attempted empty_db).1.audit_log

tamper_evident_example :
    (map (record_values platform) log ≡ map (record_values platform) other_log) ⊎ Collision platform
unfolding opened check_chain record_values
tamper_evident_example = tamper_evident platform "attempted" log other_log refl refl refl

abbrev ended : AuditEvent
ended = record attempted { final_status = "succeeded" }

finish-Recorded_example :
    (company_id : ℤ) × (ended.company_id ≡ some company_id)
    × Recorded platform 20 ended
        (reservation_of ended company_id "key")
        succeeded
        empty
        begun
        (finish platform healthy 20 ended "key" succeeded (some empty) begun).1
unfolding opened
finish-Recorded_example =
    finish-Recorded platform 20 ended healthy "key" succeeded empty begun begun-IsValid.sound refl
