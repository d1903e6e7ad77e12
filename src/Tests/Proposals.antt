-- ===== src/Tests/Proposals.antt =====
-- The theorems on proposals and their documents, at small tables.
use odoo_mcp.Prelude.{is_blank, ℤ, pos, ◌≡◌, refl, ◌∷◌, none, some, [], arith}
use odoo_mcp.Json.{empty}
use odoo_mcp.Storage.Models.{
  ArtifactRecord, ProposalRecord, proposed, executing, expired, proposal_transition,
}
use odoo_mcp.Storage.Database.{Db, empty_db, healthy, confirmation_lost, ok, err}
use odoo_mcp.Storage.Put.{put}
use odoo_mcp.Storage.Proposals.{
  NewProposal, new_proposal, find_proposal, create, get, Transition, transition, allowed, state_eq,
}
use odoo_mcp.Storage.Proposals.States.{HasNumbers, transition_lem, transition_once}
use odoo_mcp.Storage.Proposals.Moves.{Next, transition-Next}
use odoo_mcp.Storage.Proposals.Creation.{with_created, create-get}
use odoo_mcp.Storage.ProposalJournal.{record_proposal}
use odoo_mcp.Storage.ProposalJournal.Pairs.{Atomic, record_proposal-Atomic}
use odoo_mcp.Storage.Artifacts
use odoo_mcp.Storage.Artifacts.{new_artifact, check_artifact, find_artifact}
use odoo_mcp.Storage.Artifacts.Rows.{with_artifact}
use odoo_mcp.Storage.Execution.Record.{with_record}
use odoo_mcp.Storage.ReportJournal.{report_of, report_body, record_success}
use odoo_mcp.Storage.ReportJournal.Success.{record_success_ok}
use odoo_mcp.Tests.Samples.{platform}
use odoo_mcp.Tests.Runs.{opened}
use odoo_mcp.Tests.Tables.{attempted}

abbrev plan : NewProposal
plan = record {
  request_id = "r1";
  tenant_id = "t";
  company_id = pos 7;
  tool_name = "reconcile";
  module_name = "accounting";
  proposal_type = "reconciliation";
  payload = empty;
}

abbrev row : ProposalRecord
row = new_proposal plan 10 1

abbrev created : Db
created = with_created plan 10 empty_db

created-HasNumbers : HasNumbers created
created-HasNumbers = (omega arith, refl, tt)

abbrev starting : Transition
starting = record {
  tenant_id = "t";
  proposal_id = pos 1;
  expected = proposed;
  target = executing;
  erp_record_refs = [];
}

abbrev expiring : Transition
expiring = record starting { target = expired }

transition_lem_example : transition healthy 20 starting created ≡ (
  ok (record row { status = executing }),
  record created { proposals = record row { status = executing } ∷ [] },
)
unfolding put find_proposal allowed is_blank
transition_lem_example = transition_lem 20 starting created created-HasNumbers refl refl

transition_once_example :
    transition healthy 30 expiring (transition healthy 20 starting created).1
    ≡ (err proposal_transition, (transition healthy 20 starting created).1)
unfolding find_proposal allowed state_eq is_blank
transition_once_example =
    transition_once 20 30 starting expiring created row created-HasNumbers refl refl refl refl refl
      refl refl refl

transition-Next_example : Next "t" (pos 1) row (transition confirmation_lost 20 starting created).1
unfolding find_proposal
transition-Next_example = transition-Next confirmation_lost 20 starting created "t" (pos 1) row refl

create-get_example :
    (create healthy 10 plan empty_db ≡ (ok row, created))
    × (get healthy "other" (pos 1) created ≡ (ok none, created))
unfolding is_blank
create-get_example = create-get 10 plan empty_db "other" tt refl refl

record_proposal-Atomic_example :
    Atomic 20 plan "# Plan" created confirmation_lost
      (record_proposal confirmation_lost 20 plan "# Plan" created)
record_proposal-Atomic_example =
    record_proposal-Atomic 20 plan "# Plan" created confirmation_lost created-HasNumbers tt

abbrev stored_report : ArtifactRecord
stored_report = new_artifact (report_of attempted (pos 7) "report" "# Report") 20 1

record_success_ok_example :
    (company_id : ℤ) × (attempted.company_id ≡ some company_id)
    × (let report = report_of attempted company_id "report" "# Report" in
        (stored_report ≡ new_artifact report 20 1)
        × ((record_success platform healthy 20 attempted "report" "# Report" empty_db).1
            ≡ with_record platform 20 attempted (with_artifact report 20 empty_db)))
unfolding opened record_success report_body check_artifact find_artifact
    Artifacts.create_in_transaction
record_success_ok_example =
    record_success_ok platform 20 attempted healthy "report" "# Report" empty_db stored_report tt
      refl
