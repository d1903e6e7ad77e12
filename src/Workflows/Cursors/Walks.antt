-- ===== src/Workflows/Cursors/Walks.antt =====
-- Proofs about a client that follows the cursors of a report from page to page.
use mathlib.Core.List.{append-nil}
use odoo_mcp.Prelude.{
  ℕ, suc, zero, ◌+◌, ◌≤◌, ◌<◌, pos, String, true, false, ◌≡◌, refl, sym, ap, ◌∙◌, Option, none,
  some, List, [], ◌∷◌, ◌++◌, length, take, drop, ltb, arith, Bool-cases, inl, inr,
}
use odoo_mcp.Errors.{OdooMcpError}
use odoo_mcp.Workflows.Values.{Reply, answered, refused, crashed}
use odoo_mcp.Workflows.Cursors.{CursorText, split_once, cursor_offset, next_cursor, page_at}

module _ {A : Type 0} where
  drop_nil : (n : ℕ) → drop {A = A} n [] ≡ []
  drop_nil zero = refl
  drop_nil (suc n) = refl

  drop-drop : (m n : ℕ) (xs : List A) → drop n (drop m xs) ≡ drop (m + n) xs
  drop-drop zero n xs = let e : 0 + n ≡ n = omega arith in rw e refl
  drop-drop (suc m) n [] = let e : suc m + n ≡ suc (m + n) = omega arith in rw e (drop_nil n)
  drop-drop (suc m) n (x ∷ xs) =
      let e : suc m + n ≡ suc (m + n) = omega arith in rw e (drop-drop m n xs)

  length-take_positive : (n : ℕ) (xs : List A) → 1 ≤ n → 0 < length xs → 0 < length (take n xs)
  length-take_positive zero xs h p = absurd (omega arith)
  length-take_positive (suc n) [] h p = p
  length-take_positive (suc n) (x ∷ xs) h p = omega arith

  take-drop : (n : ℕ) (xs : List A) → take n xs ++ drop n xs ≡ xs
  take-drop zero xs = refl
  take-drop (suc n) [] = refl
  take-drop (suc n) (x ∷ xs) = cc (take-drop n xs)

  drop_all : (n : ℕ) (xs : List A) → length xs ≤ n → drop n xs ≡ []
  drop_all zero [] h = refl
  drop_all zero (x ∷ xs) h = absurd (omega arith)
  drop_all (suc n) [] h = refl
  drop_all (suc n) (x ∷ xs) h = drop_all n xs (omega arith)

  drop-length-take : (n : ℕ) (xs : List A) → drop (length (take n xs)) xs ≡ drop n xs
  drop-length-take zero xs = refl
  drop-length-take (suc n) [] = refl
  drop-length-take (suc n) (x ∷ xs) = drop-length-take n xs

  length-drop : (n : ℕ) (xs : List A) → n ≤ length xs → n + length (drop n xs) ≡ length xs
  length-drop zero xs h = omega arith
  length-drop (suc n) [] h = absurd (omega arith)
  length-drop (suc n) (x ∷ xs) h = omega (arith, length-drop n xs)

-- The documented inverses: decoding undoes encoding, and `int` reads what `str` writes.
pub record RoundTrips (t : CursorText) : Type 0 where
  pub decodes : (s : String) → t.decode (t.encode s) ≡ some s
  pub reads : (n : ℕ) → t.int (t.str n) ≡ some (pos n)

-- The offset behind a next cursor is the one it was made of, if it is positive.
pub cursor_offset-next_cursor :
    (t : CursorText) (invalid : OdooMcpError) (n : ℕ)
    → RoundTrips t
    → 0 < n
    → cursor_offset t invalid (some (next_cursor t n)) ≡ answered n
unfolding cursor_offset next_cursor split_once
cursor_offset-next_cursor t invalid n trips h = rw (trips.decodes, trips.reads) (ground arith)

module _ {A : Type 0} (t : CursorText) (invalid outside : OdooMcpError) where
  -- One call of a report that lists `all_items`, under a cursor.
  abbrev pub page_from : List A → ℕ → Reply ℕ → Reply (List A × Option String)
  page_from all_items limit (refused e) = refused e
  page_from all_items limit crashed = crashed
  page_from all_items limit (answered offset) = page_at t outside all_items limit offset

  page_at_more :
      (all_items : List A) (limit offset : ℕ)
      → offset ≤ length all_items
      → ltb (offset + length (take limit (drop offset all_items))) (length all_items) ≡ true
      → page_at t outside all_items limit offset
        ≡ answered (
          take limit (drop offset all_items),
          some (next_cursor t (offset + length (take limit (drop offset all_items)))),
        )
  unfolding page_at
  page_at_more all_items limit offset inside more = ground arith

  page_at_last :
      (all_items : List A) (limit offset : ℕ)
      → offset ≤ length all_items
      → ltb (offset + length (take limit (drop offset all_items))) (length all_items) ≡ false
      → page_at t outside all_items limit offset
        ≡ answered (take limit (drop offset all_items), none)
  unfolding page_at
  page_at_last all_items limit offset inside last = ground arith

  abbrev then_walk : (String → List A) → Reply (List A × Option String) → List A
  then_walk rest (refused e) = []
  then_walk rest crashed = []
  then_walk rest (answered (items, none)) = items
  then_walk rest (answered (items, some c)) = items ++ rest c

  -- The items that a client has read that follows the next cursors, in as many calls.
  pub walk : List A → ℕ → ℕ → Option String → List A
  walk all_items limit zero cursor = []
  walk all_items limit (suc calls) cursor =
      then_walk (λ c. walk all_items limit calls (some c))
        (page_from all_items limit (cursor_offset t invalid cursor))

  walk_page :
      (all_items : List A) (limit calls offset : ℕ) (cursor : Option String)
      → RoundTrips t
      → 1 ≤ limit
      → cursor_offset t invalid cursor ≡ answered offset
      → offset ≤ length all_items
      → length (drop offset all_items) < calls
      → walk all_items limit calls cursor ≡ drop offset all_items
  unfolding walk
  walk_page all_items limit zero offset cursor trips some_items at_offset inside enough =
      absurd (omega arith)
  walk_page all_items limit (suc calls) offset cursor trips some_items at_offset inside enough =
      let rest = drop offset all_items in
      let items = take limit rest in
      let total = length-drop offset all_items inside in
      let parts : items ++ drop (length items) rest ≡ rest =
        rw drop-length-take (take-drop limit rest) in
      let tail = drop-drop offset (length items) all_items in
      let lengths = ap length parts in
      elim (Bool-cases (ltb (offset + length items) (length all_items))) [
        | inl more ↦
            (let positive = length-take_positive limit rest some_items (ground arith) in
              let next = offset + length items in
              let rec =
                walk_page all_items limit calls next (some (next_cursor t next)) trips some_items
                  (cursor_offset-next_cursor t invalid next trips (omega arith)) (ground arith)
                  (omega (arith, length-drop next all_items (ground arith))) in
              let page : page_at t outside all_items limit offset
                  ≡ answered (items, some (next_cursor t next)) =
                page_at_more all_items limit offset inside more in
              rw (at_offset, page, rec) (ap (λ r. items ++ r) (sym tail) ∙ parts))
        | inr last ↦
            (let none_left = drop_all (length items) rest (ground arith) in
              let page : page_at t outside all_items limit offset ≡ answered (items, none) =
                page_at_last all_items limit offset inside last in
              rw (at_offset, page)
                (sym (append-nil items) ∙ ap (λ r. items ++ r) (sym none_left) ∙ parts))
      ]

  -- A client that starts without a cursor and follows the next cursors reads every item once, in
  -- order, and reaches the end in at most one call more than there are items.
  pub walk_all :
      (all_items : List A) (limit calls : ℕ)
      → RoundTrips t
      → 1 ≤ limit
      → length all_items < calls
      → walk all_items limit calls none ≡ all_items
  walk_all all_items limit calls trips some_items enough =
      walk_page all_items limit calls 0 none trips some_items (unfold cursor_offset in refl)
        (omega arith) enough
