-- ===== src/Workflows/Paging/Termination.antt =====
-- Proofs that the loop over the pages ends.
use odoo_mcp.Prelude.{
  ℕ, zero, suc, ◌+◌, ◌≤◌, ◌<◌, String, true, ◌≡◌, refl, Option, none, some, List, [], ◌∷◌, ◌++◌,
  length, length-append, any_of, if◌then◌else◌, arith, ◌⊎◌, inl, inr,
}
use odoo_mcp.Workflows.Values.{RecordPage, Reply, answered, refused, crashed}
use odoo_mcp.Workflows.Paging.{
  Reader, read_items, Turn, go_on, stop, next_turn, after_items, turn, read_pages, read_all,
  max_source_records,
}

module _ {A : Type 0} (r : Reader A) where
  read_items-length :
      (items : List A) (seen : List ℕ) (kept : List A) (seen' : List ℕ) (kept' : List A)
      → read_items r items seen kept ≡ some (seen', kept')
      → length kept + (if any_of r.is_kept items then 1 else 0) ≤ length kept'
  unfolding read_items
  read_items-length [] seen kept seen' kept' h = ground arith
  read_items-length (a ∷ items) seen kept seen' kept' h = ground (
    arith,
    read_items-length items (r.id_of a ∷ seen) (kept ++ a ∷ []) seen' kept',
    read_items-length items (r.id_of a ∷ seen) kept seen' kept',
    length-append kept (a ∷ []),
  )

  pub next_turn-go_on :
      (next : Option String) (cursors : List String) (seen : List ℕ) (kept : List A) (c : String)
      (cursors' : List String) (seen' : List ℕ) (kept' : List A)
      → next_turn r next cursors seen kept ≡ go_on c cursors' seen' kept'
      → (next ≡ some c) × (kept ≡ kept') × (seen ≡ seen')
  unfolding next_turn
  next_turn-go_on none cursors seen kept c cursors' seen' kept' h = cc
  next_turn-go_on (some d) cursors seen kept c cursors' seen' kept' h =
      (ground arith, ground arith, ground arith)

  pub after_items-go_on :
      (o : Option (List ℕ × List A)) (next : Option String) (cursors : List String) (c : String)
      (cursors' : List String) (seen' : List ℕ) (kept' : List A)
      → after_items r o next cursors ≡ go_on c cursors' seen' kept'
      → (next ≡ some c) × (o ≡ some (seen', kept')) × (length kept' ≤ max_source_records)
  unfolding after_items
  after_items-go_on none next cursors c cursors' seen' kept' h = cc
  after_items-go_on (some (seen, kept)) next cursors c cursors' seen' kept' h = (
    ground (arith, next_turn-go_on next cursors seen kept c cursors' seen' kept'),
    ground (arith, next_turn-go_on next cursors seen kept c cursors' seen' kept'),
    ground (arith, next_turn-go_on next cursors seen kept c cursors' seen' kept'),
  )

  -- A page that names another one brings an item that is kept.
  abbrev pub Progresses : (ℕ → Option String → Reply (RecordPage A)) → Type 0
  Progresses fetch =
      (call : ℕ) (cursor : Option String) (page : RecordPage A) (c : String)
      → fetch call cursor ≡ answered page
      → page.next_cursor ≡ some c
      → any_of r.is_kept page.items ≡ true

  turn-go_on :
      (reply : Reply (RecordPage A)) (cursors : List String) (seen : List ℕ) (kept : List A)
      (c : String) (cursors' : List String) (seen' : List ℕ) (kept' : List A)
      → ((page : RecordPage A)
          → reply ≡ answered page
          → page.next_cursor ≡ some c
          → any_of r.is_kept page.items ≡ true)
      → turn r reply cursors seen kept ≡ go_on c cursors' seen' kept'
      → (length kept + 1 ≤ length kept') × (length kept' ≤ max_source_records)
  unfolding turn
  turn-go_on (refused e) cursors seen kept c cursors' seen' kept' brings h = absurd (cc h)
  turn-go_on crashed cursors seen kept c cursors' seen' kept' brings h = absurd (cc h)
  turn-go_on (answered page) cursors seen kept c cursors' seen' kept' brings h =
      let read = read_items r page.items seen kept in
      let (next, same, bound) =
        after_items-go_on read page.next_cursor cursors c cursors' seen' kept' (ground arith) in
      (
        ground
            (arith, read_items-length page.items seen kept seen' kept' same, brings page refl next),
        bound,
      )

  pub Turn-cases :
      (t : Turn r)
      → ((reply : Reply (List A)) × (t ≡ stop reply))
        ⊎ ((c : String) × (cursors : List String) × (seen : List ℕ) × (kept : List A) × (t
              ≡ go_on c cursors seen kept))
  Turn-cases (stop reply) = inl (reply, refl)
  Turn-cases (go_on c cursors seen kept) = inr (c, cursors, seen, kept, refl)

  read_pages_ends :
      (fuel : ℕ) (fetch : ℕ → Option String → Reply (RecordPage A)) (call : ℕ)
      (cursor : Option String) (cursors : List String) (seen : List ℕ) (kept : List A)
      → Progresses fetch
      → max_source_records + 1 < fuel + length kept
      → length kept ≤ max_source_records
      → (reply : Reply (List A)) × (read_pages r fuel fetch call cursor cursors seen kept
          ≡ some reply)
  unfolding read_pages
  read_pages_ends zero fetch call cursor cursors seen kept brings more few = absurd (omega arith)
  read_pages_ends (suc fuel) fetch call cursor cursors seen kept brings more few =
      elim (Turn-cases (turn r (fetch call cursor) cursors seen kept)) [
        | inl (reply, ended) ↦ (reply, rw (ended, read_pages))
        | inr (c, cursors', seen', kept', goes) ↦
            (let (grown, bound) =
                turn-go_on (fetch call cursor) cursors seen kept c cursors' seen' kept'
                  (λ page. brings call cursor page c) goes in
              rw (goes, read_pages)
                (read_pages_ends fuel fetch (call + 1) (some c) cursors' seen' kept' brings
                  (omega arith) bound))
      ]

  -- If every page that names another one brings an item that is kept, the loop ends within 100,002
  -- pages: with that much fuel it returns the records or raises.
  pub read_all_ends :
      (fetch : ℕ → Option String → Reply (RecordPage A)) (fuel : ℕ)
      → Progresses fetch
      → max_source_records + 1 < fuel
      → (reply : Reply (List A)) × (read_all r fetch fuel ≡ some reply)
  unfolding read_all
  read_all_ends fetch fuel brings more =
      read_pages_ends fuel fetch 0 none [] [] [] brings (omega arith) (omega arith)
