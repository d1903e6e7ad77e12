-- ===== src/Storage/Artifacts/Rows.antt =====
-- Lemmas on the statements of the artifacts table.
use odoo_mcp.Prelude.{
  ℕ, ◌+◌, ◌<◌, pos, ◌≡◌, refl, ◌⊎◌, inl, inr, some, List, [], ◌∷◌, ◌++◌, All, eq_refl, arith,
}
use odoo_mcp.Storage.Models.{ArtifactRecord, value_error}
use odoo_mcp.Storage.Database.{Db, ok, err}
use odoo_mcp.Storage.Artifacts.{
  NewArtifact, check_artifact, new_artifact, find_artifact, create_in_transaction,
}

-- Every document's id is below the next one.
abbrev pub ArtifactsBelow : Db → Type 0
ArtifactsBelow db = All (λ (a : ArtifactRecord). a.id < db.artifact_next) db.artifacts

pub find_artifact-fresh :
    (next : ℕ) (rs : List ArtifactRecord) (x : ArtifactRecord)
    → All (λ (a : ArtifactRecord). a.id < next) rs
    → x.id ≡ next
    → find_artifact x.tenant_id (pos next) (rs ++ x ∷ []) ≡ some x
unfolding find_artifact
find_artifact-fresh next [] x w e = ground (arith, eq_refl x.tenant_id)
find_artifact-fresh next (r ∷ rs) x w e = ground (arith, find_artifact-fresh next rs x)

abbrev pub with_artifact : NewArtifact → ℕ → Db → Db
with_artifact n now db = record db {
  artifacts = db.artifacts ++ new_artifact n now db.artifact_next ∷ [];
  artifact_next = db.artifact_next + 1;
}

checked_artifact :
    (n : NewArtifact) (db : Db)
    → (check_artifact n db ≡ (ok tt, db)) ⊎ (check_artifact n db ≡ (err value_error, db))
unfolding check_artifact
checked_artifact n db = ground arith

-- A document that is returned was written.
pub created_artifact :
    (now : ℕ) (n : NewArtifact) (db : Db) (a : ArtifactRecord)
    → ArtifactsBelow db
    → (create_in_transaction now n db).0 ≡ ok a
    → (a ≡ new_artifact n now db.artifact_next)
      × ((create_in_transaction now n db).1 ≡ with_artifact n now db)
unfolding create_in_transaction
created_artifact now n db a below h =
    let fresh =
      find_artifact-fresh db.artifact_next db.artifacts (new_artifact n now db.artifact_next) below
        refl in
    elim (checked_artifact n db) [
      | inl fine ↦ (ground (arith, fine, fresh), ground (arith, fine, fresh))
      | inr bad ↦ absurd (ground (arith, bad))
    ]
