-- ===== src/Storage/Idempotency/Owner.antt =====
-- The UPDATE of `finish_in_transaction`, by what it makes of the row of the key.
use odoo_mcp.Prelude.{
  ℕ, Bool, true, false, ◌≡◌, refl, some, List, [], ◌∷◌, eqb_ℤ, str_eq, ◌&&◌, arith, any_of, ◌==◌,
  inl, inr, Bool-cases, subst,
}
use odoo_mcp.Json.{Dict}
use odoo_mcp.Storage.Put.{put, put_absent}
use odoo_mcp.Storage.Models.{IdempotencyRow, IdempotencyState}
use odoo_mcp.Storage.Idempotency.{
  matches, find_row, owned_by, update_owned, finished, Reservation, is_in_progress,
}
use odoo_mcp.Storage.Idempotency.Rows.{same_id, IsWellFormed, matches_key}
use odoo_mcp.Storage.Idempotency.Updates.{found-same_id}

abbrev pub row_id : IdempotencyRow → ℕ
row_id r = r.id

-- The row is of the reservation's company and request, and in progress.
abbrev pub is_owner : Reservation → IdempotencyRow → Bool
is_owner v r =
    eqb_ℤ r.company_id v.company_id
    && (str_eq r.owner_request_id v.owner_request_id && is_in_progress r.state)

pub owned_by_lem :
    (v : Reservation) (r : IdempotencyRow) → matches v.key r ≡ true → owned_by v r ≡ is_owner v r
unfolding owned_by
owned_by_lem v r key = rw key refl

module _ (v : Reservation) (s : IdempotencyState) (d : Dict) (now : ℕ) where
  update_absent :
      (rs : List IdempotencyRow)
      → any_of (matches v.key) rs ≡ false
      → update_owned v s d now rs ≡ rs
  unfolding update_owned owned_by
  update_absent [] h = refl
  update_absent (x ∷ rs) h = ground (arith, update_absent rs)

  put_head :
      (x : IdempotencyRow) (rs : List IdempotencyRow)
      → any_of (same_id x) rs ≡ false
      → any_of (matches v.key) rs ≡ false
      → owned_by v x ≡ true
      → update_owned v s d now (x ∷ rs) ≡ put row_id (finished s d now x) (x ∷ rs)
  unfolding update_owned put
  put_head x rs id key own =
      rw (own, update_absent rs key, put_absent row_id (finished s d now x) rs id) (ground arith)

  put_tail :
      (x a : IdempotencyRow) (rs : List IdempotencyRow)
      → owned_by v x ≡ false
      → (x.id == a.id) ≡ false
      → update_owned v s d now rs ≡ put row_id a rs
      → update_owned v s d now (x ∷ rs) ≡ put row_id a (x ∷ rs)
  unfolding update_owned put
  put_tail x a rs there other rest = rw (there, other, rest) refl

  -- The UPDATE puts the finished row in the place of the one that the SELECT finds, if the caller
  -- owns it.
  pub update_owned-put :
      (next : ℕ) (rs : List IdempotencyRow) (r : IdempotencyRow)
      → IsWellFormed next rs
      → find_row v.key rs ≡ some r
      → owned_by v r ≡ true
      → update_owned v s d now rs ≡ put row_id (finished s d now r) rs
  unfolding find_row
  update_owned-put next [] r w f own = absurd (cc f)
  update_owned-put next (x ∷ rs) r w f own =
      let rest = update_owned-put next rs r in
      elim (Bool-cases (matches v.key x)) [
        | inl here ↦
            let same : x ≡ r = ground arith in
            subst (λ y. update_owned v s d now (x ∷ rs) ≡ put row_id (finished s d now y) (x ∷ rs))
              same
              (put_head x rs (ground arith)
                (subst (λ k. any_of (matches k) rs ≡ false) (matches_key v.key x here)
                  (ground arith))
                (rw same own))
        | inr there ↦
            let f' : find_row v.key rs ≡ some r = ground arith in
            put_tail x (finished s d now r) rs (unfold owned_by in rw there refl)
              (found-same_id v.key x r rs f' (ground arith)) (rest (ground arith) f' own)
      ]
