-- ===== src/Storage/Idempotency/Rows.antt =====
-- The table of idempotency keys: its invariant, and what a search finds after each statement.
use odoo_mcp.Prelude.{
  ℕ, ◌+◌, ◌<◌, Bool, true, false, ◌||◌, ◌≡◌, refl, Option, none, some, List, [], ◌∷◌, ◌++◌, eq_iff,
  arith, any_of, ◌==◌, if◌then◌else◌,
}
use odoo_mcp.Storage.Models.{IdempotencyRow}
use odoo_mcp.Storage.Idempotency.{RowKey, matches, find_row, row_invalid}

abbrev pub key_of : IdempotencyRow → RowKey
key_of r = record {
  tenant_id = r.tenant_id;
  tool_name = r.tool_name;
  idempotency_key = r.idempotency_key;
}

abbrev pub same_id : IdempotencyRow → IdempotencyRow → Bool
same_id r s = s.id == r.id

-- Every id is below the next one, state and response fit, and no key or id occurs twice.
abbrev pub IsWellFormed : ℕ → List IdempotencyRow → Type 0
IsWellFormed next [] = Unit
IsWellFormed next (r ∷ rs) =
    (r.id < next)
    × (row_invalid r ≡ false)
    × (any_of (matches (key_of r)) rs ≡ false)
    × (any_of (same_id r) rs ≡ false)
    × IsWellFormed next rs

pub matches_comm : (r s : IdempotencyRow) → matches (key_of r) s ≡ matches (key_of s) r
unfolding matches
matches_comm r s = ground (
  arith,
  eq_iff r.tenant_id s.tenant_id,
  eq_iff s.tenant_id r.tenant_id,
  eq_iff r.tool_name s.tool_name,
  eq_iff s.tool_name r.tool_name,
  eq_iff r.idempotency_key s.idempotency_key,
  eq_iff s.idempotency_key r.idempotency_key,
)

-- A row is found under its own key.
pub matches_key : (k : RowKey) (r : IdempotencyRow) → matches k r ≡ true → key_of r ≡ k
unfolding matches
matches_key k r h = ground (
  arith,
  eq_iff r.tenant_id k.tenant_id,
  eq_iff r.tool_name k.tool_name,
  eq_iff r.idempotency_key k.idempotency_key,
)

any_of-append {ℓ} :
    {A : Type ℓ} (f : A → Bool) (xs : List A) (y : A)
    → any_of f (xs ++ y ∷ []) ≡ (any_of f xs || f y)
any_of-append f [] y = ground arith
any_of-append f (x ∷ xs) y = ground (arith, any_of-append f xs y)

abbrev or_else : Option IdempotencyRow → Option IdempotencyRow → Option IdempotencyRow
or_else none b = b
or_else (some a) b = some a

pub find_row-append :
    (k : RowKey) (rs : List IdempotencyRow) (r : IdempotencyRow)
    → find_row k (rs ++ r ∷ []) ≡ or_else (find_row k rs) (if matches k r then some r else none)
unfolding find_row
find_row-append k [] r = ground arith
find_row-append k (x ∷ rs) r = ground (arith, find_row-append k rs r)

pub find_row-none :
    (k : RowKey) (rs : List IdempotencyRow) → any_of (matches k) rs ≡ false → find_row k rs ≡ none
unfolding find_row
find_row-none k [] h = refl
find_row-none k (x ∷ rs) h = ground (arith, find_row-none k rs)

pub none-find_row :
    (k : RowKey) (rs : List IdempotencyRow) → find_row k rs ≡ none → any_of (matches k) rs ≡ false
unfolding find_row
none-find_row k [] h = refl
none-find_row k (x ∷ rs) h = ground (arith, none-find_row k rs)

pub find_row-matches :
    (k : RowKey) (rs : List IdempotencyRow) (r : IdempotencyRow)
    → find_row k rs ≡ some r
    → matches k r ≡ true
unfolding find_row
find_row-matches k [] r h = cc
find_row-matches k (x ∷ rs) r h = ground (arith, find_row-matches k rs r)

pub append-IsWellFormed :
    (next : ℕ) (rs : List IdempotencyRow) (r : IdempotencyRow)
    → IsWellFormed next rs
    → r.id ≡ next
    → row_invalid r ≡ false
    → any_of (matches (key_of r)) rs ≡ false
    → IsWellFormed (next + 1) (rs ++ r ∷ [])
append-IsWellFormed next [] r w e i f = ground arith
append-IsWellFormed next (x ∷ rs) r w e i f = ground (
  arith,
  append-IsWellFormed next rs r,
  any_of-append (matches (key_of x)) rs r,
  any_of-append (same_id x) rs r,
  matches_comm x r,
)
