-- ===== src/Workflows/Crashes.antt =====
-- Proofs that calls raise nothing but the errors of the code itself.
use odoo_mcp.Prelude.{
  ℕ, zero, suc, ◌+◌, ◌≤◌, text_length, String, Bool, true, false, ◌≡◌, ◌≢◌, refl, Option, none,
  some, List, [], arith, inl, inr,
}
use odoo_mcp.Errors.{OdooMcpError}
use odoo_mcp.Workflows.Values.{
  RecordPage, Reply, answered, refused, crashed, ◌>>=◌, refuse_if, then_reply,
}
use odoo_mcp.Workflows.Paging.{
  max_cursor_length, Reader, read_items, stop, next_turn, after_items, turn, read_pages, read_all,
}
use odoo_mcp.Workflows.Paging.Termination.{Turn-cases}

pub bind_safe {ℓ κ} :
    {A : Type ℓ} {B : Type κ} (r : Reply A) (f : A → Reply B)
    → r ≢ crashed
    → ((a : A) → r ≡ answered a → f a ≢ crashed)
    → (r >>= f) ≢ crashed
bind_safe (answered a) f safe next = next a refl
bind_safe (refused e) f safe next = λ h. cc h
bind_safe crashed f safe next = absurd (safe refl)

pub refuse_if_safe : (b : Bool) (e : OdooMcpError) → refuse_if b e ≢ crashed
refuse_if_safe true e = λ h. cc h
refuse_if_safe false e = λ h. cc h

pub then_reply_safe {ℓ κ} :
    {A : Type ℓ} {B : Type κ} (f : A → Option (Reply B)) (o : Option (Reply A))
    → o ≢ some crashed
    → ((a : A) → o ≡ some (answered a) → f a ≢ some crashed)
    → then_reply f o ≢ some crashed
then_reply_safe f none safe next = λ h. cc h
then_reply_safe f (some (answered a)) safe next = next a refl
then_reply_safe f (some (refused e)) safe next = λ h. cc h
then_reply_safe f (some crashed) safe next = absurd (safe refl)

-- A PageRequest can be made of the cursor.
abbrev pub FitsRequest : Option String → Type 0
FitsRequest none = Unit
FitsRequest (some c) = text_length c ≤ max_cursor_length

-- Every cursor that a page names can be asked for.
abbrev pub ShortCursors : {A : Type 0} → (ℕ → Option String → Reply (RecordPage A)) → Type 0
ShortCursors {A} fetch =
    (call : ℕ) (cursor : Option String) (page : RecordPage A)
    → fetch call cursor ≡ answered page
    → FitsRequest page.next_cursor

module _ {A : Type 0} (r : Reader A) where
  next_turn_safe :
      (next : Option String) (cursors : List String) (seen : List ℕ) (kept : List A)
      → FitsRequest next
      → next_turn r next cursors seen kept ≢ stop crashed
  unfolding next_turn
  next_turn_safe none cursors seen kept fits = λ h. cc h
  next_turn_safe (some c) cursors seen kept fits = λ h. ground arith

  after_items_safe :
      (o : Option (List ℕ × List A)) (next : Option String) (cursors : List String)
      → FitsRequest next
      → after_items r o next cursors ≢ stop crashed
  unfolding after_items
  after_items_safe none next cursors fits = λ h. cc h
  after_items_safe (some (seen, kept)) next cursors fits =
      λ h. next_turn_safe next cursors seen kept fits (ground arith)

  turn_safe :
      (reply : Reply (RecordPage A)) (cursors : List String) (seen : List ℕ) (kept : List A)
      → reply ≢ crashed
      → ((page : RecordPage A) → reply ≡ answered page → FitsRequest page.next_cursor)
      → turn r reply cursors seen kept ≢ stop crashed
  unfolding turn
  turn_safe (refused e) cursors seen kept safe fits = λ h. cc h
  turn_safe crashed cursors seen kept safe fits = absurd (safe refl)
  turn_safe (answered page) cursors seen kept safe fits = λ h.
      after_items_safe (read_items r page.items seen kept) page.next_cursor cursors (fits page refl)
        (ground arith)

  read_pages_safe :
      (fuel : ℕ) (fetch : ℕ → Option String → Reply (RecordPage A)) (call : ℕ)
      (cursor : Option String) (cursors : List String) (seen : List ℕ) (kept : List A)
      → ((call : ℕ) (cursor : Option String) → fetch call cursor ≢ crashed)
      → ShortCursors fetch
      → read_pages r fuel fetch call cursor cursors seen kept ≢ some crashed
  unfolding read_pages
  read_pages_safe zero fetch call cursor cursors seen kept safe short = λ h. cc h
  read_pages_safe (suc fuel) fetch call cursor cursors seen kept safe short = λ h.
      elim (Turn-cases r (turn r (fetch call cursor) cursors seen kept)) [
        | inl (reply, ended) ↦
            turn_safe (fetch call cursor) cursors seen kept (safe call cursor) (short call cursor)
              (let h' : some reply ≡ some crashed = rw (ended, read_pages) at h in cc (ended, h'))
        | inr (c, cursors', seen', kept', goes) ↦
            read_pages_safe fuel fetch (call + 1) (some c) cursors' seen' kept' safe short
              (rw (goes, read_pages) at h)
      ]

  pub read_all_safe :
      (fetch : ℕ → Option String → Reply (RecordPage A)) (fuel : ℕ)
      → ((call : ℕ) (cursor : Option String) → fetch call cursor ≢ crashed)
      → ShortCursors fetch
      → read_all r fetch fuel ≢ some crashed
  unfolding read_all
  read_all_safe fetch fuel safe short = read_pages_safe fuel fetch 0 none [] [] [] safe short
