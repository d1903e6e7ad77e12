-- ===== src/Storage/ReportJournal/Success.antt =====
-- Proofs about what `record_success` leaves in the two tables.
use odoo_mcp.Prelude.{ℕ, ℤ, String, ◌≡◌, refl, sym, ap, ◌∙◌, Option, none, some}
use odoo_mcp.Storage.Platform.{Platform}
use odoo_mcp.Storage.Models.{AuditEvent, ArtifactRecord}
use odoo_mcp.Storage.Database.{Db, Result, ok, Fault, transaction_ok, bind_ok, pure, ◌>>=◌}
use odoo_mcp.Storage.Audit.{append_in_transaction}
use odoo_mcp.Storage.Artifacts.{NewArtifact, new_artifact, create_in_transaction}
use odoo_mcp.Storage.Execution.Record.{with_record, append_ok}
use odoo_mcp.Storage.Artifacts.Rows.{ArtifactsBelow, with_artifact, created_artifact}
use odoo_mcp.Storage.ReportJournal.{report_of, report_body, record_for, record_success}

module _ (p : Platform) (now : ℕ) (e : AuditEvent) where
  report_body_ok :
      (report : NewArtifact) (db : Db) (a : ArtifactRecord)
      → ArtifactsBelow db
      → (report_body p now e report db).0 ≡ ok a
      → (a ≡ new_artifact report now db.artifact_next)
        × ((report_body p now e report db).1 ≡ with_record p now e (with_artifact report now db))
  unfolding report_body
  report_body_ok report db a below h =
      let m = create_in_transaction now report in
      let rest = λ (x : ArtifactRecord). append_in_transaction p now e >>= λ _. pure x in
      let (b, created, whole) = bind_ok m rest db a h in
      let h' : (rest b (m db).1).0 ≡ ok a =
        ap (λ (y : Result ArtifactRecord × Db). y.0) (sym whole) ∙ h in
      let (r, appended, tail) =
        bind_ok (append_in_transaction p now e) (λ _. pure b) (m db).1 a h' in
      let same : ok b ≡ ok a = ap (λ (y : Result ArtifactRecord × Db). y.0) (sym tail) ∙ h' in
      let (made, stored) = created_artifact now report db b below created in
      (
        cc (same, made),
        ap (λ (y : Result ArtifactRecord × Db). y.1) (whole ∙ tail)
            ∙ append_ok p now e (m db).1 r appended
            ∙ ap (with_record p now e) stored,
      )

  record_for_ok :
      (c : Option ℤ) (fault : Fault) (artifact_type content : String) (db : Db) (a : ArtifactRecord)
      → ArtifactsBelow db
      → (record_for p c fault now e artifact_type content db).0 ≡ ok a
      → (company_id : ℤ) × (c ≡ some company_id)
        × (let report = report_of e company_id artifact_type content in
            (a ≡ new_artifact report now db.artifact_next)
            × ((record_for p c fault now e artifact_type content db).1
                ≡ with_record p now e (with_artifact report now db)))
  record_for_ok none fault artifact_type content db a below h = absurd (cc h)
  record_for_ok (some c) fault artifact_type content db a below h =
      let report = report_of e c artifact_type content in
      let same = transaction_ok fault (report_body p now e report) db a h in
      let (made, left) =
        report_body_ok report db a below
          (ap (λ (y : Result ArtifactRecord × Db). y.0) (sym same) ∙ h) in
      (c, refl, (made, ap (λ (y : Result ArtifactRecord × Db). y.1) same ∙ left))

  -- If `record_success` returns on a table whose ids are below the next one, the event has a company,
  -- the document returned is the report of the event, and the tables hold it and, last in the audit
  -- log, the record of the event.
  pub record_success_ok :
      (fault : Fault) (artifact_type content : String) (db : Db) (a : ArtifactRecord)
      → ArtifactsBelow db
      → (record_success p fault now e artifact_type content db).0 ≡ ok a
      → (company_id : ℤ) × (e.company_id ≡ some company_id)
        × (let report = report_of e company_id artifact_type content in
            (a ≡ new_artifact report now db.artifact_next)
            × ((record_success p fault now e artifact_type content db).1
                ≡ with_record p now e (with_artifact report now db)))
  unfolding record_success
  record_success_ok fault artifact_type content db a below h =
      record_for_ok e.company_id fault artifact_type content db a below h
