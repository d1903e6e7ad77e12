-- ===== src/Workflows/Paging/Contents.antt =====
-- Proofs about the records that the loop over the pages returns.
use odoo_mcp.Prelude.{
  ℕ, zero, suc, ◌+◌, ◌≤◌, String, Bool, true, false, ◌||◌, ◌≡◌, refl, subst, Option, none, some,
  List, [], ◌∷◌, ◌++◌, length, All, All-append, any_of, ◌==◌, arith, inl, inr, Bool-cases,
}
use odoo_mcp.Workflows.Values.{RecordPage, Reply, answered, refused, crashed}
use odoo_mcp.Workflows.Paging.{
  Reader, read_items, go_on, stop, next_turn, after_items, turn, read_pages, read_all,
  max_source_records,
}
use odoo_mcp.Workflows.Paging.Termination.{Turn-cases, after_items-go_on}

module _ {A : Type 0} (id_of : A → ℕ) where
  abbrev pub has_id : ℕ → A → Bool
  has_id n a = id_of a == n

  -- No id occurs twice.
  abbrev pub IsDistinct : List A → Type 0
  IsDistinct [] = Unit
  IsDistinct (a ∷ xs) = (any_of (has_id (id_of a)) xs ≡ false) × IsDistinct xs

  has_id-append :
      (n : ℕ) (xs : List A) (a : A)
      → any_of (has_id n) (xs ++ a ∷ []) ≡ (any_of (has_id n) xs || id_of a == n)
  has_id-append n [] a = ground arith
  has_id-append n (x ∷ xs) a = ground (arith, has_id-append n xs a)

  append-IsDistinct :
      (xs : List A) (a : A)
      → IsDistinct xs
      → any_of (has_id (id_of a)) xs ≡ false
      → IsDistinct (xs ++ a ∷ [])
  append-IsDistinct [] a d n = (refl, tt)
  append-IsDistinct (x ∷ xs) a d n =
      (ground (arith, has_id-append (id_of x) xs a), append-IsDistinct xs a d.1 (ground arith))

module _ {A : Type 0} (r : Reader A) where
  abbrev pub IsGood : A → Type 0
  IsGood a = (r.is_consistent a ≡ true) × (r.is_kept a ≡ true)

  -- What the loop keeps true of the records so far and the ids seen.
  pub record Sound (seen : List ℕ) (kept : List A) : Type 0 where
    pub good : All IsGood kept
    pub distinct : IsDistinct r.id_of kept
    pub covered :
        (n : ℕ) → any_of (λ i. i == n) seen ≡ false → any_of (has_id r.id_of n) kept ≡ false

  read_items-Sound :
      (items : List A) (seen : List ℕ) (kept : List A) (seen' : List ℕ) (kept' : List A)
      → Sound seen kept
      → read_items r items seen kept ≡ some (seen', kept')
      → Sound seen' kept'
  unfolding read_items
  read_items-Sound [] seen kept seen' kept' w h =
      let same : (seen ≡ seen') × (kept ≡ kept') = (ground arith, ground arith) in
      subst (λ k. Sound seen' k) same.1 (subst (λ s. Sound s kept) same.0 w)
  read_items-Sound (a ∷ items) seen kept seen' kept' w h =
      let ok : r.is_consistent a ≡ true = ground arith in
      let fresh : any_of (λ i. i == r.id_of a) seen ≡ false = ground arith in
      elim (Bool-cases (r.is_kept a)) [
        | inl keep ↦
            (let more : Sound (r.id_of a ∷ seen) (kept ++ a ∷ []) = record {
              good = All-append IsGood kept (a ∷ []) w.good ((ok, keep), tt);
              distinct = append-IsDistinct r.id_of kept a w.distinct (w.covered (r.id_of a) fresh);
              covered = λ n out. ground (arith, has_id-append r.id_of n kept a, w.covered n);
            } in
              read_items-Sound items (r.id_of a ∷ seen) (kept ++ a ∷ []) seen' kept' more
                (ground arith))
        | inr drop ↦
            (let same : Sound (r.id_of a ∷ seen) kept = record {
              good = w.good;
              distinct = w.distinct;
              covered = λ n out. w.covered n (ground arith);
            } in
              read_items-Sound items (r.id_of a ∷ seen) kept seen' kept' same (ground arith))
      ]

  -- The records are consistent, kept and of distinct ids, and at most as many as the bound.
  pub record Returned (xs : List A) : Type 0 where
    pub good : All IsGood xs
    pub distinct : IsDistinct r.id_of xs
    pub bounded : length xs ≤ max_source_records

  next_turn-answered :
      (next : Option String) (cursors : List String) (seen : List ℕ) (kept xs : List A)
      → next_turn r next cursors seen kept ≡ stop (answered xs)
      → kept ≡ xs
  unfolding next_turn
  next_turn-answered none cursors seen kept xs h = ground arith
  next_turn-answered (some c) cursors seen kept xs h = ground arith

  after_items-answered :
      (o : Option (List ℕ × List A)) (next : Option String) (cursors : List String) (xs : List A)
      → ((seen : List ℕ) (kept : List A) → o ≡ some (seen, kept) → Sound seen kept)
      → after_items r o next cursors ≡ stop (answered xs)
      → Returned xs
  unfolding after_items
  after_items-answered none next cursors xs w h = absurd (cc h)
  after_items-answered (some (seen, kept)) next cursors xs w h =
      let same : kept ≡ xs = next_turn-answered next cursors seen kept xs (ground arith) in
      let sound = w seen kept refl in
      subst Returned same
        (record { good = sound.good; distinct = sound.distinct; bounded = ground arith })

  turn-answered :
      (reply : Reply (RecordPage A)) (cursors : List String) (seen : List ℕ) (kept xs : List A)
      → Sound seen kept
      → turn r reply cursors seen kept ≡ stop (answered xs)
      → Returned xs
  unfolding turn
  turn-answered (refused e) cursors seen kept xs w h = absurd (ground arith)
  turn-answered crashed cursors seen kept xs w h = absurd (ground arith)
  turn-answered (answered page) cursors seen kept xs w h =
      after_items-answered (read_items r page.items seen kept) page.next_cursor cursors xs
        (λ seen' kept'. read_items-Sound page.items seen kept seen' kept' w) (ground arith)

  turn-Sound :
      (reply : Reply (RecordPage A)) (cursors : List String) (seen : List ℕ) (kept : List A)
      (c : String) (cursors' : List String) (seen' : List ℕ) (kept' : List A)
      → Sound seen kept
      → turn r reply cursors seen kept ≡ go_on c cursors' seen' kept'
      → Sound seen' kept'
  unfolding turn
  turn-Sound (refused e) cursors seen kept c cursors' seen' kept' w h = absurd (cc h)
  turn-Sound crashed cursors seen kept c cursors' seen' kept' w h = absurd (cc h)
  turn-Sound (answered page) cursors seen kept c cursors' seen' kept' w h =
      let (_, read, _) =
        after_items-go_on r (read_items r page.items seen kept) page.next_cursor cursors c cursors'
          seen' kept' (ground arith) in
      read_items-Sound page.items seen kept seen' kept' w read

  read_pages-Returned :
      (fuel : ℕ) (fetch : ℕ → Option String → Reply (RecordPage A)) (call : ℕ)
      (cursor : Option String) (cursors : List String) (seen : List ℕ) (kept xs : List A)
      → Sound seen kept
      → read_pages r fuel fetch call cursor cursors seen kept ≡ some (answered xs)
      → Returned xs
  unfolding read_pages
  read_pages-Returned zero fetch call cursor cursors seen kept xs w h = absurd (cc h)
  read_pages-Returned (suc fuel) fetch call cursor cursors seen kept xs w h =
      elim (Turn-cases r (turn r (fetch call cursor) cursors seen kept)) [
        | inl (reply, ended) ↦ turn-answered (fetch call cursor) cursors seen kept xs w (
            let h' : some reply ≡ some (answered xs) = rw (ended, read_pages) at h in
            cc (ended, h'))
        | inr (c, cursors', seen', kept', goes) ↦
            read_pages-Returned fuel fetch (call + 1) (some c) cursors' seen' kept' xs
              (turn-Sound (fetch call cursor) cursors seen kept c cursors' seen' kept' w goes)
              (rw (goes, read_pages) at h)
      ]

  -- If the loop returns records, each of them passed its check and is to be kept, no two have one
  -- id, and they are at most 100,000, whatever the adapter answered.
  pub read_all-Returned :
      (fetch : ℕ → Option String → Reply (RecordPage A)) (fuel : ℕ) (xs : List A)
      → read_all r fetch fuel ≡ some (answered xs)
      → Returned xs
  unfolding read_all
  read_all-Returned fetch fuel xs h =
      read_pages-Returned fuel fetch 0 none [] [] [] xs
        (record { good = tt; distinct = tt; covered = λ n out. refl }) h
