-- ===== src/Storage/Database.antt =====
-- The transaction boundary of src/odoo_mcp/storage/database.py over the tables, and statements as
-- actions that keep what they wrote until the transaction ends. `Database.lock` only orders
-- transactions and changes no row, so it has no counterpart here.
use odoo_mcp.Prelude.{◌≡◌, refl, ℕ, Bool, List, [], if◌then◌else◌}
use odoo_mcp.Storage.Models.{
  AuditRecord, ProposalRecord, ArtifactRecord, IdempotencyRow, StorageError, database_error,
}

pub record Db : Type 0 where
  pub audit_log : List AuditRecord
  pub audit_next : ℕ
  pub proposals : List ProposalRecord
  pub proposal_next : ℕ
  pub artifacts : List ArtifactRecord
  pub artifact_next : ℕ
  pub idempotency_keys : List IdempotencyRow
  pub idempotency_next : ℕ

abbrev pub empty_db : Db
empty_db = record {
  audit_log = [];
  audit_next = 1;
  proposals = [];
  proposal_next = 1;
  artifacts = [];
  artifact_next = 1;
  idempotency_keys = [];
  idempotency_next = 1;
}

pub data Result {ℓ} (A : Type ℓ) : Type ℓ where
  ok : A → Result A
  err : StorageError → Result A

-- The state comes back beside the error: the rollback is the transaction's.
abbrev pub Action : Type 0 → Type 0
Action A = Db → Result A × Db

abbrev pub pure : {A : Type 0} → A → Action A
pure a db = (ok a, db)

abbrev pub raise : {A : Type 0} → StorageError → Action A
raise e db = (err e, db)

abbrev pub raise_if : Bool → StorageError → Action (Unit {0})
raise_if b e db = (if b then err e else ok tt, db)

abbrev pub gets : {A : Type 0} → (Db → A) → Action A
gets f db = (ok (f db), db)

abbrev pub modify : (Db → Db) → Action (Unit {0})
modify f db = (ok tt, f db)

infixl 10 ◌>>=◌ ◌>>◌
abbrev pub ◌>>=◌ : {A B : Type 0} → Action A → (A → Action B) → Action B
◌>>=◌ m f db = let (r, db') = m db in elim r [ ok a ↦ f a db' | err e ↦ (err e, db') ]

abbrev pub ◌>>◌ : {A B : Type 0} → Action A → Action B → Action B
m >> k = m >>= λ _. k

-- What the database does with one transaction: it commits, it fails before the commit, or the
-- commit is made and its confirmation is lost.
pub data Fault : Type 0 where
  healthy rolled_back confirmation_lost : Fault

-- How a transaction from `db` ends whose body has come to the result and the state given.
abbrev pub settle : {A : Type 0} → Fault → Result A × Db → Db → Result A × Db
settle rolled_back _ db = (err database_error, db)
settle healthy (ok a, db') db = (ok a, db')
settle healthy (err e, _) db = (err e, db)
settle confirmation_lost (ok a, db') db = (err database_error, db')
settle confirmation_lost (err e, _) db = (err e, db)

-- `transaction(write=...)`: commit what a body that returns has written, and roll back on any
-- exception.
unfoldable pub transaction : {A : Type 0} → Fault → Action A → Db → Result A × Db
transaction fault body db = settle fault (body db) db

settle_induction :
    {A : Type 0} (P : Db → Type 0) (fault : Fault) (r : Result A) (db' db : Db)
    → P db
    → P db'
    → P (settle fault (r, db') db).1
settle_induction P rolled_back r db' db before after = before
settle_induction P healthy (ok a) db' db before after = after
settle_induction P healthy (err e) db' db before after = before
settle_induction P confirmation_lost (ok a) db' db before after = after
settle_induction P confirmation_lost (err e) db' db before after = before

-- What holds before a transaction and after its body holds after the transaction.
pub transaction_induction :
    {A : Type 0} (P : Db → Type 0) (fault : Fault) (body : Action A) (db : Db)
    → P db
    → P (body db).1
    → P (transaction fault body db).1
unfolding transaction
transaction_induction P fault body db before after =
    settle_induction P fault (body db).0 (body db).1 db before after

after_result :
    {A B : Type 0} (P : Db → Type 0) (f : A → Action B) (r : Result A) (db : Db)
    → P db
    → ((a : A) (d : Db) → P d → P (f a d).1)
    → P (elim r as (λ _. Result B × Db) [ ok a ↦ f a db | err e ↦ (err e, db) ]).1
after_result P f (ok a) db h step = step a db h
after_result P f (err e) db h step = h

-- What the first action establishes and the second keeps holds after both.
pub bind_induction :
    {A B : Type 0} (P : Db → Type 0) (m : Action A) (f : A → Action B) (db : Db)
    → P (m db).1
    → ((a : A) (d : Db) → P d → P (f a d).1)
    → P ((m >>= f) db).1
bind_induction P m f db h step = after_result P f (m db).0 (m db).1 h step

settle_ok :
    {A : Type 0} (fault : Fault) (r : Result A) (db' db : Db) (a : A)
    → (settle fault (r, db') db).0 ≡ ok a
    → settle fault (r, db') db ≡ (r, db')
settle_ok rolled_back r db' db a e = cc
settle_ok healthy (ok b) db' db a e = refl
settle_ok healthy (err x) db' db a e = cc
settle_ok confirmation_lost (ok b) db' db a e = cc
settle_ok confirmation_lost (err x) db' db a e = cc

-- A transaction that returns has done what its body did.
pub transaction_ok :
    {A : Type 0} (fault : Fault) (body : Action A) (db : Db) (a : A)
    → (transaction fault body db).0 ≡ ok a
    → transaction fault body db ≡ body db
unfolding transaction
transaction_ok fault body db a e = settle_ok fault (body db).0 (body db).1 db a e

after_ok :
    {A B : Type 0} (f : A → Action B) (r : Result A) (db : Db) (b : B)
    → (elim r as (λ _. Result B × Db) [ ok a ↦ f a db | err e ↦ (err e, db) ]).0 ≡ ok b
    → (a : A) × (r ≡ ok a)
      × ((elim r as (λ _. Result B × Db) [ ok a ↦ f a db | err e ↦ (err e, db) ]) ≡ f a db)
after_ok f (ok a) db b e = (a, refl, refl)
after_ok f (err x) db b e = absurd (cc)

-- If the whole returns, the first action did, and the whole is the second from there.
pub bind_ok :
    {A B : Type 0} (m : Action A) (f : A → Action B) (db : Db) (b : B)
    → ((m >>= f) db).0 ≡ ok b
    → (a : A) × ((m db).0 ≡ ok a) × ((m >>= f) db ≡ f a (m db).1)
bind_ok m f db b e = after_ok f (m db).0 (m db).1 b e
