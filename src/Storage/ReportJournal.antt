-- ===== src/Storage/ReportJournal.antt =====
-- `ReportJournal` of src/odoo_mcp/storage/reporting.py: a report's document and its audit event in
-- one transaction.
pub mod Success
use odoo_mcp.Prelude.{ℕ, ℤ, String, Option, none, some}
use odoo_mcp.Storage.Platform.{Platform}
use odoo_mcp.Storage.Models.{AuditEvent, ArtifactRecord, value_error}
use odoo_mcp.Storage.Database.{Action, pure, raise, ◌>>=◌, ◌>>◌, Fault, transaction}
use odoo_mcp.Storage.Audit.{append_in_transaction}
use odoo_mcp.Storage.Artifacts.{NewArtifact, create_in_transaction}

-- The document that is stored for the report of an event.
abbrev pub report_of : AuditEvent → ℤ → String → String → NewArtifact
report_of event company_id artifact_type content = record {
  request_id = event.request_id;
  tenant_id = event.tenant_id;
  company_id = company_id;
  tool_name = event.tool_name;
  module_name = event.module_name;
  artifact_type = artifact_type;
  artifact_format = "markdown";
  content = content;
}

module _ (p : Platform) where
  unfoldable pub report_body : ℕ → AuditEvent → NewArtifact → Action ArtifactRecord
  report_body now event report = do
    artifact ← create_in_transaction now report
    append_in_transaction p now event
    pure artifact

  abbrev pub record_for :
      Option ℤ → Fault → ℕ → AuditEvent → String → String → Action ArtifactRecord
  record_for none fault now event artifact_type content = raise value_error
  record_for (some c) fault now event artifact_type content =
      transaction fault (report_body now event (report_of event c artifact_type content))

  -- `record_success`
  unfoldable pub record_success : Fault → ℕ → AuditEvent → String → String → Action ArtifactRecord
  record_success fault now event artifact_type content =
      record_for event.company_id fault now event artifact_type content
