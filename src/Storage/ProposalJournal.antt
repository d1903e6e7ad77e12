-- ===== src/Storage/ProposalJournal.antt =====
-- `ProposalJournal` of src/odoo_mcp/storage/proposals.py: a proposal and its document in one
-- transaction.
pub mod Pairs
use odoo_mcp.Prelude.{ℕ, String}
use odoo_mcp.Storage.Models.{ProposalRecord}
use odoo_mcp.Storage.Database.{Action, pure, ◌>>=◌, ◌>>◌, Fault, transaction}
use odoo_mcp.Storage.Proposals.{NewProposal}
use odoo_mcp.Storage.Artifacts.{NewArtifact}
use odoo_mcp.Storage.Proposals
use odoo_mcp.Storage.Artifacts

-- The document of a proposal.
abbrev pub document_of : NewProposal → String → NewArtifact
document_of n artifact_markdown = record {
  request_id = n.request_id;
  tenant_id = n.tenant_id;
  company_id = n.company_id;
  tool_name = n.tool_name;
  module_name = n.module_name;
  artifact_type = n.proposal_type;
  artifact_format = "markdown";
  content = artifact_markdown;
}

unfoldable pub record_body : ℕ → NewProposal → String → Action ProposalRecord
record_body now n artifact_markdown = do
  proposal ← Proposals.create_in_transaction now n
  Artifacts.create_in_transaction now (document_of n artifact_markdown)
  pure proposal

-- `record`
unfoldable pub record_proposal : Fault → ℕ → NewProposal → String → Action ProposalRecord
record_proposal fault now n artifact_markdown =
    transaction fault (record_body now n artifact_markdown)
