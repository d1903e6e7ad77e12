-- ===== src/Storage/ProposalJournal/Pairs.antt =====
-- Proofs about what `record_proposal` leaves in the two tables.
use odoo_mcp.Prelude.{
  ℕ, ◌+◌, String, true, false, ◌≡◌, refl, sym, subst, ◌⊎◌, inl, inr, [], ◌∷◌, ◌++◌, arith, is_blank,
  if◌then◌else◌, Bool-cases,
}
use odoo_mcp.Storage.Models.{ProposalRecord, value_error}
use odoo_mcp.Storage.Database.{
  Db, Result, ok, err, Fault, healthy, rolled_back, confirmation_lost, settle, transaction,
}
use odoo_mcp.Storage.Proposals.{NewProposal, new_proposal}
use odoo_mcp.Storage.Proposals.States.{HasNumbers}
use odoo_mcp.Storage.Proposals.Creation.{acceptable, create_in_transaction_lem, with_created}
use odoo_mcp.Storage.Artifacts.{check_artifact, new_artifact, create_in_transaction}
use odoo_mcp.Storage.Artifacts.Rows.{ArtifactsBelow, find_artifact-fresh}
use odoo_mcp.Storage.ProposalJournal.{document_of, record_body, record_proposal}

check_document :
    (n : NewProposal) (artifact_markdown : String) (db : Db)
    → acceptable n ≡ true
    → check_artifact (document_of n artifact_markdown) db ≡ (ok tt, db)
unfolding check_artifact is_blank
check_document n artifact_markdown db good = ground arith

-- The tables with the proposal and its document in them.
abbrev pub with_pair : NewProposal → String → ℕ → Db → Db
with_pair n artifact_markdown now db = record (with_created n now db) {
  artifacts =
      db.artifacts ++ new_artifact (document_of n artifact_markdown) now db.artifact_next ∷ [];
  artifact_next = db.artifact_next + 1;
}

module _ (now : ℕ) (n : NewProposal) (artifact_markdown : String) (db : Db) where
  document_created :
      ArtifactsBelow db
      → acceptable n ≡ true
      → create_in_transaction now (document_of n artifact_markdown) (with_created n now db) ≡ (
        ok (new_artifact (document_of n artifact_markdown) now db.artifact_next),
        with_pair n artifact_markdown now db,
      )
  unfolding create_in_transaction
  document_created below good = ground (
    arith,
    check_document n artifact_markdown (with_created n now db) good,
    find_artifact-fresh db.artifact_next db.artifacts
        (new_artifact (document_of n artifact_markdown) now db.artifact_next) below refl,
  )

  record_body_lem :
      HasNumbers db
      → ArtifactsBelow db
      → record_body now n artifact_markdown db ≡ (
          if acceptable n
          then (ok (new_proposal n now db.proposal_next), with_pair n artifact_markdown now db)
          else (err value_error, db))
  unfolding record_body
  record_body_lem w below = elim (Bool-cases (acceptable n)) [
    | inr bad ↦ ground (arith, create_in_transaction_lem now n db w)
    | inl good ↦ ground (arith, create_in_transaction_lem now n db w, document_created below good)
  ]

  -- Both rows are there or neither is, a proposal is returned only with both, and it is returned
  -- if the arguments are acceptable and the database is healthy.
  abbrev pub Atomic : Fault → Result ProposalRecord × Db → Type 0
  Atomic fault (r, db') =
      ((db' ≡ db) ⊎ (db' ≡ with_pair n artifact_markdown now db))
      × ((p : ProposalRecord)
          → r ≡ ok p
          → (p ≡ new_proposal n now db.proposal_next)
            × (db' ≡ with_pair n artifact_markdown now db))
      × (acceptable n ≡ true → fault ≡ healthy → r ≡ ok (new_proposal n now db.proposal_next))

  refused-Atomic :
      (fault : Fault) → acceptable n ≡ false → Atomic fault (settle fault (err value_error, db) db)
  refused-Atomic healthy bad = (inl refl, λ p e. absurd (cc e), λ g h. absurd (cc (g, bad)))
  refused-Atomic rolled_back bad = (inl refl, λ p e. absurd (cc e), λ g h. absurd (cc (g, bad)))
  refused-Atomic confirmation_lost bad =
      (inl refl, λ p e. absurd (cc e), λ g h. absurd (cc (g, bad)))

  written-Atomic :
      (fault : Fault)
      → Atomic fault (
          settle fault
            (ok (new_proposal n now db.proposal_next), with_pair n artifact_markdown now db)
            db)
  written-Atomic healthy = (inr refl, λ p e. (cc e, refl), λ g h. refl)
  written-Atomic rolled_back = (inl refl, λ p e. absurd (cc e), λ g h. absurd (cc h))
  written-Atomic confirmation_lost = (inr refl, λ p e. absurd (cc e), λ g h. absurd (cc h))

  -- However its transaction ends, on sound tables `record_proposal` leaves both the proposal and its
  -- document or changes nothing; if it returns, it has left both and returns the proposal; and it
  -- returns if the arguments are acceptable and the database is healthy.
  pub record_proposal-Atomic :
      (fault : Fault)
      → HasNumbers db
      → ArtifactsBelow db
      → Atomic fault (record_proposal fault now n artifact_markdown db)
  unfolding record_proposal transaction
  record_proposal-Atomic fault w below =
      let ended = record_body_lem w below in
      elim (Bool-cases (acceptable n)) [
        | inr bad ↦
            subst (λ b. Atomic fault (settle fault b db)) (sym (rw bad at ended))
              (refused-Atomic fault bad)
        | inl good ↦
            subst (λ b. Atomic fault (settle fault b db)) (sym (rw good at ended))
              (written-Atomic fault)
      ]
