-- ===== src/Workflows/Paging.antt =====
-- The loops of src/odoo_mcp/workflows/accounting that read all pages of one kind of record: `_journals`
-- and `_lines` of cashbook.py, and `_statement_lines`, `_candidate_lines` and `_journals` of
-- reconcile_bank.py. They differ in what an item is checked for, in what is kept of a page, and in
-- the messages.
pub mod Termination
pub mod Contents
use odoo_mcp.Prelude.{
  ℕ, zero, suc, ◌+◌, String, Bool, true, false, ◌||◌, not, Option, none, some, List, [], ◌∷◌, ◌++◌,
  length, any_of, text_in, text_length, ltb, ◌==◌, if◌then◌else◌,
}
use odoo_mcp.Errors.{OdooMcpError, odoo_api_error}
use odoo_mcp.Workflows.Values.{RecordPage, Reply, answered, refused, crashed}

-- `_SOURCE_PAGE_SIZE`
abbrev pub source_page_size : ℕ
source_page_size = 100

-- `_MAX_SOURCE_RECORDS`
unfoldable pub max_source_records : ℕ
max_source_records = 100000

-- `PageRequest.cursor` has `max_length=128`.
abbrev pub max_cursor_length : ℕ
max_cursor_length = 128

-- What one loop asks of an item, keeps of it, and says where it raises.
pub record Reader (A : Type 0) : Type 0 where
  pub id_of : A → ℕ
  pub is_consistent : A → Bool
  pub is_kept : A → Bool
  pub oversized : OdooMcpError
  pub inconsistent : OdooMcpError
  pub out_of_bound : OdooMcpError
  pub bad_cursor : OdooMcpError

module _ {A : Type 0} (r : Reader A) where
  -- The ids seen and the items kept after the items of a page; `none` where an item is refused.
  unfoldable pub read_items : List A → List ℕ → List A → Option (List ℕ × List A)
  read_items [] seen kept = some (seen, kept)
  read_items (a ∷ items) seen kept =
      let rest =
        read_items items (r.id_of a ∷ seen) (if r.is_kept a then kept ++ a ∷ [] else kept) in
      if not (r.is_consistent a) || any_of (λ i. i == r.id_of a) seen then none else rest

  -- What is done with a page before the next one is asked for: the state to go on with, or the end.
  pub data Turn : Type 0 where
    go_on : String → List String → List ℕ → List A → Turn
    stop : Reply (List A) → Turn

  -- The end of the loop's body, on the page's next cursor, and the PageRequest that the next pass
  -- makes of it, whose cursor pydantic refuses with a ValidationError if it is too long.
  unfoldable pub next_turn : Option String → List String → List ℕ → List A → Turn
  next_turn none cursors seen kept = stop (answered kept)
  next_turn (some c) cursors seen kept =
      if text_in c cursors
      then stop (refused r.bad_cursor)
      else (if ltb max_cursor_length (text_length c)
          then stop crashed
          else go_on c (c ∷ cursors) seen kept)

  unfoldable pub after_items : Option (List ℕ × List A) → Option String → List String → Turn
  after_items none next cursors = stop (refused r.inconsistent)
  after_items (some (seen, kept)) next cursors =
      if ltb max_source_records (length kept)
      then stop (refused r.out_of_bound)
      else next_turn next cursors seen kept

  unfoldable pub turn : Reply (RecordPage A) → List String → List ℕ → List A → Turn
  turn (refused e) cursors seen kept = stop (refused e)
  turn crashed cursors seen kept = stop crashed
  turn (answered page) cursors seen kept =
      if ltb source_page_size (length page.items)
      then stop (refused r.oversized)
      else after_items (read_items page.items seen kept) page.next_cursor cursors

  -- The loop, on fuel: `none` is only that the fuel is spent. `fetch` is the adapter's method, which
  -- may answer each call as it likes.
  unfoldable pub read_pages :
      ℕ
      → (ℕ → Option String → Reply (RecordPage A))
      → ℕ
      → Option String
      → List String
      → List ℕ
      → List A
      → Option (Reply (List A))
  read_pages zero fetch call cursor cursors seen kept = none
  read_pages (suc fuel) fetch call cursor cursors seen kept =
      elim (turn (fetch call cursor) cursors seen kept) [
        | stop reply ↦ some reply
        | go_on c cursors' seen' kept' ↦
            read_pages fuel fetch (call + 1) (some c) cursors' seen' kept'
      ]

  -- The whole loop, from empty sets and no cursor.
  unfoldable pub read_all : (ℕ → Option String → Reply (RecordPage A)) → ℕ → Option (Reply (List A))
  read_all fetch fuel = read_pages fuel fetch 0 none [] [] []
