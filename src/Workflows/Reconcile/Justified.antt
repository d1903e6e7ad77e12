-- ===== src/Workflows/Reconcile/Justified.antt =====
-- Proofs that the matches of `_decisions` are the best candidates of all the lines.
use mathlib.Core.List.{Memᴰ}
use mathlib.Core.List.Memᴰ.{not-nil, cases_cons}
use odoo_mcp.Prelude.{
  String, true, false, ◌≡◌, refl, sym, ap, ◌∙◌, subst, Option, none, some, List, [], ◌∷◌, map, All,
  ◌⊎◌, inl, inr, Bool-cases, Option-cases,
}
use odoo_mcp.Workflows.Values.{
  for_each, Decimal, RelatedRecord, Currency, Journal, AccountMoveLine, BankStatementLine, answered,
  crashed, bind_answered, ◌>>=◌,
}
use odoo_mcp.Workflows.Sorting.{sort_by}
use odoo_mcp.Workflows.Sorting.Sorted.{All-mono, All-sort_by, sort_by-All, sort_by-IsSorted}
use odoo_mcp.Workflows.Reconcile.{
  Candidate, Decision, currency_or, find_journal, find_currency, is_bank,
}
use odoo_mcp.Workflows.Reconcile.Scoring.{is_roundable, candidate_of}
use odoo_mcp.Workflows.Reconcile.Decisions.{
  lines_round, crash_unless, collect, subscript, leb_scored, choose_among, bank_journal, decide,
}
use odoo_mcp.Workflows.Reconcile.Decisions.Indexed.{IsSymmetric}
use odoo_mcp.Workflows.Reconcile.Decisions.Scan.{scan, decisions-scan}
use odoo_mcp.Workflows.Reconcile.Conflicts.{is_contested, settle, settle_all, decisions}
use odoo_mcp.Workflows.Reconcile.Complete.{bank_journal-answered}
use odoo_mcp.Workflows.Reconcile.Decisions.Each.{for_each-All, subscript-answered}
use odoo_mcp.Workflows.Reconcile.Best.{IsOrdered, leb_scored-IsPreorder, choose_chosen}

-- What a match of a decision is: the candidate that one of the lines makes, of a score that is at
-- least the threshold and more than that of any other candidate that the lines make.
module _ {D : Type 0} (m : Decimal D) (fold : String → String)
    (candidates : List (AccountMoveLine D)) (threshold : D) (journals : List Journal)
    (company_currency : RelatedRecord) (currencies : List (Currency D)) where
  pub record IsBest (ls : List (AccountMoveLine D)) (s : BankStatementLine D) (c : Candidate D)
      : Type 0 where
    pub journal : Journal
    pub effective : Currency D
    pub listed : find_journal s.journal.id journals ≡ some journal
    pub bank : is_bank journal ≡ true
    pub priced :
        find_currency (currency_or journal.currency company_currency).id currencies ≡ some effective
    pub line : AccountMoveLine D
    pub among : Memᴰ line ls
    pub made : candidate_of m fold s line journal company_currency effective ≡ some c
    pub high : m.ltb c.score threshold ≡ false
    pub best :
        All
          (λ (e : Candidate D). (e ≡ c) ⊎ (m.ltb e.score c.score ≡ true))
          (collect (λ l. candidate_of m fold s l journal company_currency effective) ls)

  abbrev pub IsJustified : Decision D → Type 0
  IsJustified d = (c : Candidate D) → d.candidate ≡ some c → IsBest candidates d.statement c

  scan-answered :
      (company_value effective : Currency D) (lines : List (AccountMoveLine D))
      (s : BankStatementLine D) (o : Option RelatedRecord)
      → find_currency company_currency.id currencies ≡ some company_value
      → scan m company_currency company_value currencies candidates s o
        ≡ answered (effective, lines)
      → (find_currency (currency_or o company_currency).id currencies ≡ some effective)
        × (lines ≡ candidates)
  scan-answered company_value effective lines s none priced h =
      let (_, _, h') =
        bind_answered (crash_unless (is_roundable m (m.negate s.amount) company_value))
          (λ _. answered (company_value, candidates)) (effective, lines) h in
      let e : company_value ≡ effective = cc h' in (priced ∙ ap some e, cc h')
  scan-answered company_value effective lines s (some own) priced h =
      elim (Option-cases (find_currency own.id currencies)) [
        | inl missing ↦
            absurd (let h' : crashed ≡ answered (effective, lines) = rw missing at h in cc h')
        | inr (value, found) ↦
            (let h0 : (crash_unless (is_roundable m (m.negate s.amount) value) >>= λ _.
            answered (value, candidates))
                  ≡ answered (effective, lines) =
                rw found at h in
              let (_, _, h1) =
                bind_answered (crash_unless (is_roundable m (m.negate s.amount) value))
                  (λ _. answered (value, candidates)) (effective, lines) h0 in
              let h' : answered (value, candidates) ≡ answered (effective, lines) = h1 in
              let e : value ≡ effective = cc h' in (found ∙ ap some e, cc h'))
      ]

  collect_made :
      (f : AccountMoveLine D → Option (Candidate D)) (ls : List (AccountMoveLine D))
      (c : Candidate D)
      → Memᴰ c (collect f ls)
      → (l : AccountMoveLine D) × Memᴰ l ls × (f l ≡ some c)
  collect_made f [] c h = absurd (not-nil h)
  collect_made f (l ∷ ls) c h = elim (Option-cases (f l)) [
    | inl none_made ↦
        (let h' : Memᴰ c (collect f ls) = rw none_made at h in
          let (k, among, made) = collect_made f ls c h' in (k, Memᴰ.tail among, made))
    | inr (x, made_x) ↦
        (let h' : Memᴰ c (x ∷ collect f ls) = rw made_x at h in
          elim (cases_cons h') [
            | inl is_x ↦ (l, Memᴰ.head refl, made_x ∙ ap some (sym is_x))
            | inr later ↦
                (let (k, among, made) = collect_made f ls c later in (k, Memᴰ.tail among, made))
          ])
  ]

  All-members : (cs : List (Candidate D)) → All (λ c. Memᴰ c cs) cs
  All-members [] = tt
  All-members (c ∷ cs) = (
    Memᴰ.head refl,
    All-mono (λ e. Memᴰ e cs) (λ e. Memᴰ e (c ∷ cs)) cs (λ e. λ w. Memᴰ.tail w) (All-members cs),
  )

  All_at :
      (P : Candidate D → Type 0) (c : Candidate D) (cs : List (Candidate D))
      → Memᴰ c cs
      → All P cs
      → P c
  All_at P c [] h w = absurd (not-nil h)
  All_at P c (x ∷ cs) h w = elim (cases_cons h) [
    | inl is_x ↦ subst P (sym is_x) w.0
    | inr later ↦ All_at P c cs later w.1
  ]

  decide-IsJustified :
      (company_value : Currency D) (s : BankStatementLine D) (d : Decision D)
      → IsSymmetric m
      → IsOrdered m
      → find_currency company_currency.id currencies ≡ some company_value
      → decide m fold threshold journals company_currency
          (scan m company_currency company_value currencies candidates)
          s
        ≡ answered d
      → IsJustified d
  unfolding decide choose_among
  decide-IsJustified company_value s d symmetric ordered priced h c chosen =
      let (journal, found, h') =
        bind_answered (bank_journal (find_journal s.journal.id journals)) _ d h in
      let ((effective, lines), scanned, h'') =
        bind_answered
          (scan m company_currency company_value currencies candidates s journal.currency)
          (choose_among m fold s threshold journal company_currency) d h' in
      let (listed, bank) =
        bank_journal-answered (find_journal s.journal.id journals) journal found in
      let (effective_priced, all) =
        scan-answered company_value effective lines s journal.currency priced scanned in
      let options =
        collect (λ l. candidate_of m fold s l journal company_currency effective) lines in
      let sorted = sort_by (leb_scored m) options in
      let (wins, member, same) =
        choose_chosen m ordered s threshold sorted d c symmetric
          (sort_by-IsSorted (leb_scored m) (λ a b. m.ltb a.score b.score ≡ false) options
            (leb_scored-IsPreorder m ordered))
          h'' chosen in
      let member' =
        All_at (λ e. Memᴰ e options) c sorted member
          (All-sort_by (leb_scored m) (λ e. Memᴰ e options) options (All-members options)) in
      let (line, among, made) =
        collect_made (λ l. candidate_of m fold s l journal company_currency effective) lines c
          member' in
      let here : IsBest lines s c = record {
        journal = journal;
        effective = effective;
        listed = listed;
        bank = bank;
        priced = effective_priced;
        line = line;
        among = among;
        made = made;
        high = wins.0;
        best =
            sort_by-All (leb_scored m)
              (λ (e : Candidate D). (e ≡ c) ⊎ (m.ltb e.score c.score ≡ true)) options wins.1;
      } in
      subst (λ ls. IsBest ls d.statement c) all (subst (λ r. IsBest lines r c) (sym same) here)

  settle-IsJustified :
      (provisional : List (Decision D)) (d : Decision D)
      → IsJustified d
      → IsJustified (settle provisional d)
  unfolding settle
  settle-IsJustified provisional d w = elim (Bool-cases (is_contested provisional d.candidate)) [
    | inl contested ↦ rw contested (λ c. λ chosen. absurd (cc chosen))
    | inr free ↦ rw free w
  ]

  settled-IsJustified :
      (provisional ds : List (Decision D))
      → All IsJustified ds
      → All IsJustified (map (settle provisional) ds)
  settled-IsJustified provisional [] w = tt
  settled-IsJustified provisional (d ∷ ds) w =
      (settle-IsJustified provisional d w.0, settled-IsJustified provisional ds w.1)

  -- If decimals compare as their values, are in a total order and round half up symmetrically about
  -- zero, then each match that `_decisions` returns is a candidate that one of the candidate lines
  -- makes under the journal's currency, scores at least the threshold, and scores more than every
  -- other candidate that the lines make for the statement line.
  pub decisions-IsJustified :
      (statements : List (BankStatementLine D)) (ds : List (Decision D))
      → IsSymmetric m
      → IsOrdered m
      → decisions m fold statements candidates threshold journals company_currency currencies
        ≡ answered ds
      → All IsJustified ds
  unfolding settle_all
  decisions-IsJustified statements ds symmetric ordered h =
      let h0 =
        sym (
          decisions-scan m fold statements candidates threshold journals company_currency currencies
            symmetric)
        ∙ h in
      let (company_value, priced, h1) =
        bind_answered (subscript (find_currency company_currency.id currencies)) _ ds h0 in
      let (_, _, h') =
        bind_answered
          (crash_unless (lines_round m company_currency company_value currencies candidates)) _ ds
          h1 in
      let one =
        decide m fold threshold journals company_currency
          (scan m company_currency company_value currencies candidates) in
      let (provisional, each, h'') =
        bind_answered (for_each one statements) (λ provisional. answered (settle_all provisional))
          ds h' in
      let same : settle_all provisional ≡ ds = cc h'' in
      subst (All IsJustified) same (
        settled-IsJustified provisional provisional (
          for_each-All IsJustified one statements provisional
            (λ s d. decide-IsJustified company_value s d symmetric ordered (
              subscript-answered (find_currency company_currency.id currencies) company_value
                priced))
            each))
