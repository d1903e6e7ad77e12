-- ===== src/Storage/Idempotency/Updates.antt =====
-- Lemmas on the DELETE and the UPDATE of the idempotency table, on a well-formed table.
use odoo_mcp.Prelude.{
  ℕ, Bool, false, ◌≡◌, refl, Option, none, some, List, [], ◌∷◌, arith, any_of, ◌==◌, if◌then◌else◌,
}
use odoo_mcp.Json.{Dict}
use odoo_mcp.Storage.Models.{IdempotencyRow, IdempotencyState}
use odoo_mcp.Storage.Idempotency.{
  RowKey, matches, find_row, delete_id, owned_by, update_owned, finished, Reservation,
  is_in_progress, count_owned,
}
use odoo_mcp.Storage.Idempotency.Rows.{key_of, same_id, IsWellFormed, matches_key, find_row-none}

any_of-delete_id :
    (f : IdempotencyRow → Bool) (i : ℕ) (rs : List IdempotencyRow)
    → any_of f rs ≡ false
    → any_of f (delete_id i rs) ≡ false
unfolding delete_id
any_of-delete_id f i [] h = refl
any_of-delete_id f i (x ∷ rs) h = ground (arith, any_of-delete_id f i rs)

pub delete_id-IsWellFormed :
    (next i : ℕ) (rs : List IdempotencyRow)
    → IsWellFormed next rs
    → IsWellFormed next (delete_id i rs)
unfolding delete_id
delete_id-IsWellFormed next i [] w = w
delete_id-IsWellFormed next i (x ∷ rs) w = ground (
  arith,
  delete_id-IsWellFormed next i rs,
  any_of-delete_id (matches (key_of x)) i rs,
  any_of-delete_id (same_id x) i rs,
)

delete_id-absent :
    (x : IdempotencyRow) (rs : List IdempotencyRow)
    → any_of (same_id x) rs ≡ false
    → delete_id x.id rs ≡ rs
unfolding delete_id
delete_id-absent x [] h = refl
delete_id-absent x (y ∷ rs) h = ground (arith, delete_id-absent x rs)

pub found-same_id :
    (k : RowKey) (x r : IdempotencyRow) (rs : List IdempotencyRow)
    → find_row k rs ≡ some r
    → any_of (same_id x) rs ≡ false
    → (x.id == r.id) ≡ false
unfolding find_row
found-same_id k x r [] h a = cc
found-same_id k x r (y ∷ rs) h a = ground (arith, found-same_id k x r rs)

-- The row that was found for a key is gone after its deletion, and no row takes its place.
pub find_row-delete_id_self :
    (next : ℕ) (k : RowKey) (r : IdempotencyRow) (rs : List IdempotencyRow)
    → IsWellFormed next rs
    → find_row k rs ≡ some r
    → find_row k (delete_id r.id rs) ≡ none
unfolding find_row delete_id
find_row-delete_id_self next k r [] w h = cc
find_row-delete_id_self next k r (x ∷ rs) w h = ground (
  arith,
  find_row-delete_id_self next k r rs,
  delete_id-absent x rs,
  matches_key k x,
  find_row-none k rs,
)

-- Rows of other keys stay.
pub find_row-delete_id_ne :
    (next : ℕ) (j k : RowKey) (r : IdempotencyRow) (rs : List IdempotencyRow)
    → IsWellFormed next rs
    → find_row k rs ≡ some r
    → matches j r ≡ false
    → find_row j (delete_id r.id rs) ≡ find_row j rs
unfolding find_row delete_id
find_row-delete_id_ne next j k r [] w h n = refl
find_row-delete_id_ne next j k r (x ∷ rs) w h n =
    ground
      (arith, find_row-delete_id_ne next j k r rs, delete_id-absent x rs, found-same_id k x r rs)

module _ (v : Reservation) (s : IdempotencyState) (d : Dict) (now : ℕ) where
  abbrev pub updated : IdempotencyRow → IdempotencyRow
  updated r = if owned_by v r then finished s d now r else r

  abbrev pub map_updated : Option IdempotencyRow → Option IdempotencyRow
  map_updated none = none
  map_updated (some r) = some (updated r)

  any_of-update_key :
      (k : RowKey) (rs : List IdempotencyRow)
      → any_of (matches k) (update_owned v s d now rs) ≡ any_of (matches k) rs
  unfolding update_owned matches
  any_of-update_key k [] = refl
  any_of-update_key k (x ∷ rs) = ground (arith, any_of-update_key k rs)

  any_of-update_id :
      (r : IdempotencyRow) (rs : List IdempotencyRow)
      → any_of (same_id r) (update_owned v s d now rs) ≡ any_of (same_id r) rs
  unfolding update_owned
  any_of-update_id r [] = refl
  any_of-update_id r (x ∷ rs) = ground (arith, any_of-update_id r rs)

  pub update_owned-IsWellFormed :
      (next : ℕ) (rs : List IdempotencyRow)
      → is_in_progress s ≡ false
      → IsWellFormed next rs
      → IsWellFormed next (update_owned v s d now rs)
  unfolding update_owned
  update_owned-IsWellFormed next [] final w = w
  update_owned-IsWellFormed next (x ∷ rs) final w = ground (
    arith,
    update_owned-IsWellFormed next rs,
    any_of-update_key (key_of x) rs,
    any_of-update_id x rs,
  )

  pub find_row-update_owned :
      (k : RowKey) (rs : List IdempotencyRow)
      → find_row k (update_owned v s d now rs) ≡ map_updated (find_row k rs)
  unfolding find_row update_owned matches
  find_row-update_owned k [] = refl
  find_row-update_owned k (x ∷ rs) = ground (arith, find_row-update_owned k rs)

count_owned-none :
    (v : Reservation) (rs : List IdempotencyRow)
    → any_of (matches v.key) rs ≡ false
    → count_owned v rs ≡ 0
unfolding count_owned owned_by
count_owned-none v [] h = refl
count_owned-none v (x ∷ rs) h = ground (arith, count_owned-none v rs)

abbrev count_found : Reservation → Option IdempotencyRow → ℕ
count_found v none = 0
count_found v (some r) = if owned_by v r then 1 else 0

-- At most one row is updated: the row of the key, if the caller owns it.
pub count_owned_lem :
    (next : ℕ) (v : Reservation) (rs : List IdempotencyRow)
    → IsWellFormed next rs
    → count_owned v rs ≡ count_found v (find_row v.key rs)
unfolding count_owned find_row owned_by
count_owned_lem next v [] w = refl
count_owned_lem next v (x ∷ rs) w =
    ground (arith, count_owned_lem next v rs, matches_key v.key x, count_owned-none v rs)
