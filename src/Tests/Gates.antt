-- ===== src/Tests/Gates.antt =====
-- The theorems on the gates and the answers of `run`, at sample requests.
use odoo_mcp.Prelude.{String, pos, true, ◌≡◌, refl, some}
use odoo_mcp.Json.{empty}
use odoo_mcp.Storage.Database.{empty_db}
use odoo_mcp.Policy.WriteSafety.Types.{WriteSafetyResponse, Pydantic, Request, validate_shape}
use odoo_mcp.Policy.WriteSafety.Response.{applied_response}
use odoo_mcp.Policy.WriteSafety.Run.{run}
use odoo_mcp.Policy.WriteSafety.Attempt.{Permitted, Granted, run_attempt}
use odoo_mcp.Policy.WriteSafety.Honest.{Reports, run-Reports}
use odoo_mcp.Policy.WriteSafety.Durable.{Saved, run-Saved}
use odoo_mcp.Policy.WriteSafety.Authority.{Authorized, run-Authorized}
use odoo_mcp.Policy.WriteSafety.Shape.{run-validate_shape}
use odoo_mcp.Tests.Samples.{definition, snapshot, command, request, prepared, applied}
use odoo_mcp.Tests.Runs.{opened}

run_attempt_example :
    Permitted (request "r1" 10)
    × Granted (request "r1" 10) (some "key") empty_db (run (request "r1" 10) empty_db)
unfolding opened
run_attempt_example = run_attempt (request "r1" 10) empty_db refl

run-Reports_example : Reports (request "r1" 10) (run (request "r1" 10) empty_db)
run-Reports_example = run-Reports (request "r1" 10) empty_db

abbrev answer : WriteSafetyResponse
answer = applied_response prepared applied "r1" (pos 7)

-- A pydantic that reads one response from every mapping.
abbrev recalling : Pydantic
recalling = record { model_dump = λ r. empty; model_validate = λ d. some answer }

abbrev recalled : Request
recalled = record (request "r1" 10) { pydantic = recalling }

answer-validate_shape : validate_shape answer ≡ true
unfolding validate_shape applied_response
answer-validate_shape = refl

run-validate_shape_example : validate_shape answer ≡ true
unfolding opened
run-validate_shape_example =
    run-validate_shape recalled empty_db (λ d r e. cc (e, answer-validate_shape)) answer refl

run-Saved_example :
    (key : String) × (some "key" ≡ some key)
    × Saved (request "r1" 10) key answer (run (request "r1" 10) empty_db).db
unfolding opened
run-Saved_example =
    run-Saved (request "r1" 10) empty_db answer tt
      (record { by_prepare = λ d h. h; by_validate = λ d h. h; by_execute = λ d h. h }) refl refl
      refl

run-Authorized_example : Authorized (request "r1" 10).binding definition snapshot command
unfolding opened
run-Authorized_example = run-Authorized (request "r1" 10) empty_db (λ e. cc e)
