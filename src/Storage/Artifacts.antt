-- ===== src/Storage/Artifacts.antt =====
-- `ArtifactRepository` of src/odoo_mcp/storage/repositories.py: the documents that the tools write.
pub mod Rows
use odoo_mcp.Prelude.{
  ℕ, ◌+◌, ℤ, pos, negsuc, leb_ℤ, String, Bool, false, ◌&&◌, Option, none, some, List, [], ◌∷◌, ◌++◌,
  str_eq, is_blank, ◌==◌, if◌then◌else◌,
}
use odoo_mcp.Storage.Models.{ArtifactRecord, value_error, runtime_error}
use odoo_mcp.Storage.Database.{
  Action, pure, raise, raise_if, gets, modify, ◌>>=◌, ◌>>◌, Fault, transaction,
}

-- The arguments of `create`.
pub record NewArtifact : Type 0 where
  pub request_id : String
  pub tenant_id : String
  pub company_id : ℤ
  pub tool_name : String
  pub module_name : String
  pub artifact_type : String
  pub artifact_format : String
  pub content : String

unfoldable pub check_artifact : NewArtifact → Action (Unit {0})
check_artifact n = do
  raise_if (is_blank n.request_id) value_error
  raise_if (is_blank n.tenant_id) value_error
  raise_if (leb_ℤ n.company_id (pos 0)) value_error
  raise_if (is_blank n.tool_name) value_error
  raise_if (is_blank n.module_name) value_error
  raise_if (is_blank n.artifact_type) value_error
  raise_if (is_blank n.artifact_format) value_error

-- The row that the INSERT writes under the id given.
abbrev pub new_artifact : NewArtifact → ℕ → ℕ → ArtifactRecord
new_artifact n now id = record {
  id = id;
  request_id = n.request_id;
  tenant_id = n.tenant_id;
  company_id = n.company_id;
  tool_name = n.tool_name;
  module_name = n.module_name;
  artifact_type = n.artifact_type;
  artifact_format = n.artifact_format;
  content = n.content;
  created_at = now;
}

abbrev has_id : ℤ → ArtifactRecord → Bool
has_id (pos i) r = r.id == i
has_id (negsuc _) r = false

-- SELECT * FROM artifacts WHERE tenant_id = ? AND id = ?
unfoldable pub find_artifact : String → ℤ → List ArtifactRecord → Option ArtifactRecord
find_artifact tenant_id id [] = none
find_artifact tenant_id id (r ∷ rs) =
    let rest = find_artifact tenant_id id rs in
    if str_eq r.tenant_id tenant_id && has_id id r then some r else rest

-- The created row must be found.
abbrev pub fetched : Option ArtifactRecord → Action ArtifactRecord
fetched none = raise runtime_error
fetched (some r) = pure r

unfoldable pub create_in_transaction : ℕ → NewArtifact → Action ArtifactRecord
create_in_transaction now n = do
  check_artifact n
  id ← gets (λ db. db.artifact_next)
  modify (λ db. record db {
    artifacts = db.artifacts ++ new_artifact n now db.artifact_next ∷ [];
    artifact_next = db.artifact_next + 1;
  })
  found ← gets (λ db. find_artifact n.tenant_id (pos id) db.artifacts)
  fetched found

unfoldable pub create : Fault → ℕ → NewArtifact → Action ArtifactRecord
create fault now n = transaction fault (create_in_transaction now n)

-- `get`: `transaction` without `write` reads, and has nothing to commit.
unfoldable pub get : Fault → String → ℤ → Action (Option ArtifactRecord)
get fault tenant_id id =
    raise_if (is_blank tenant_id) value_error
    >> transaction fault (gets (λ db. find_artifact tenant_id id db.artifacts))
