-- ===== src/Workflows/Reconcile/Complete.antt =====
-- Proofs that the decisions are complete: one for each statement line, with a line or a reason.
use odoo_mcp.Prelude.{
  String, true, false, ◌≡◌, ◌≢◌, refl, ap, ◌∙◌, subst, Option, none, some, List, [], ◌∷◌, map, All,
  arith, inl, inr, Bool-cases,
}
use odoo_mcp.Workflows.Values.{
  for_each, Decimal, RelatedRecord, Currency, Journal, AccountMoveLine, BankStatementLine, Reply,
  answered, refused, crashed, bind_answered,
}
use odoo_mcp.Workflows.Reconcile.{Candidate, Decision, find_journal, find_currency, is_bank}
use odoo_mcp.Workflows.Reconcile.Decisions.{
  empty_index, index_lines, lines_round, crash_unless, subscript, eligible, judge, choose,
  choose_among, bank_journal, decide,
}
use odoo_mcp.Workflows.Reconcile.Conflicts.{is_contested, settle, settle_all, decisions}
use odoo_mcp.Workflows.Reconcile.Reports.{matched_by}
use odoo_mcp.Workflows.Reconcile.Decisions.Each.{for_each-All, for_each-map}

module _ {D : Type 0} where
  -- A decision has a candidate or a reason, and its statement's journal is one of the bank or cash
  -- journals.
  pub record IsComplete (journals : List Journal) (d : Decision D) : Type 0 where
    pub explained : matched_by d.candidate ≡ false → d.reason ≢ none
    pub journal : Journal
    pub listed : find_journal d.statement.journal.id journals ≡ some journal

  settle-IsComplete :
      (journals : List Journal) (provisional : List (Decision D)) (d : Decision D)
      → IsComplete journals d
      → IsComplete journals (settle provisional d)
  unfolding settle
  settle-IsComplete journals provisional d w =
      elim (Bool-cases (is_contested provisional d.candidate)) [
        | inl contested ↦
            rw contested (record {
              explained = λ undecided. λ h. cc h;
              journal = w.journal;
              listed = w.listed;
            })
        | inr free ↦ rw free w
      ]

  settled-IsComplete :
      (journals : List Journal) (provisional ds : List (Decision D))
      → All (IsComplete journals) ds
      → All (IsComplete journals) (map (settle provisional) ds)
  settled-IsComplete journals provisional [] w = tt
  settled-IsComplete journals provisional (d ∷ ds) w =
      (settle-IsComplete journals provisional d w.0, settled-IsComplete journals provisional ds w.1)

  settle_statement :
      (provisional : List (Decision D)) (d : Decision D)
      → (settle provisional d).statement ≡ d.statement
  unfolding settle
  settle_statement provisional d = ground arith

  settled_statements :
      (provisional ds : List (Decision D))
      → map (λ (d : Decision D). d.statement) (map (settle provisional) ds)
        ≡ map (λ (d : Decision D). d.statement) ds
  settled_statements provisional [] = refl
  settled_statements provisional (d ∷ ds) =
      cc (settle_statement provisional d, settled_statements provisional ds)

pub bank_journal-answered :
    (o : Option Journal) (j : Journal)
    → bank_journal o ≡ answered j
    → (o ≡ some j) × (is_bank j ≡ true)
bank_journal-answered none j h = absurd (cc h)
bank_journal-answered (some k) j h = elim (Bool-cases (is_bank k)) [
  | inl bank ↦
      (let h' : answered k ≡ answered j = rw bank at h in
        let same : k ≡ j = cc h' in (ap some same, subst (λ i. is_bank i ≡ true) same bank))
  | inr other ↦ absurd (let h' : refused _ ≡ answered j = rw other at h in cc h')
]

module _ {D : Type 0} (m : Decimal D) where
  -- It is about the statement, and has a candidate or a reason.
  abbrev Explains : BankStatementLine D → Decision D → Type 0
  Explains s d = (d.statement ≡ s) × (matched_by d.candidate ≡ false → d.reason ≢ none)

  transport-Explains :
      (s : BankStatementLine D) (d d' : Decision D)
      → Explains s d
      → answered d ≡ answered d'
      → Explains s d'
  transport-Explains s d d' w h = let same : d ≡ d' = cc h in subst (Explains s) same w

  judge_explained :
      (s : BankStatementLine D) (threshold best : D) (cs : List (Candidate D)) (d : Decision D)
      → judge m s threshold best cs ≡ answered d
      → Explains s d
  unfolding judge
  judge_explained s threshold best [] d h = elim (Bool-cases (m.ltb best threshold)) [
    | inl low ↦ transport-Explains s _ d (refl, λ e. λ h'. cc h') (rw low at h)
    | inr high ↦ absurd (let h' : crashed ≡ answered d = rw high at h in cc h')
  ]
  judge_explained s threshold best (c ∷ []) d h = elim (Bool-cases (m.ltb best threshold)) [
    | inl low ↦ transport-Explains s _ d (refl, λ e. λ h'. cc h') (rw low at h)
    | inr high ↦ transport-Explains s _ d (refl, λ e. absurd (cc e)) (rw high at h)
  ]
  judge_explained s threshold best (c ∷ c' ∷ cs) d h =
      transport-Explains s _ d (refl, λ e. λ h'. cc h') h

  choose_explained :
      (s : BankStatementLine D) (threshold : D) (cs : List (Candidate D)) (d : Decision D)
      → choose m s threshold cs ≡ answered d
      → Explains s d
  unfolding choose
  choose_explained s threshold [] d h = transport-Explains s _ d (refl, λ e. λ h'. cc h') h
  choose_explained s threshold (c ∷ cs) d h = judge_explained s threshold c.score _ d h

  decide-IsComplete :
      (fold : String → String) (threshold : D) (journals : List Journal)
      (company_currency : RelatedRecord)
      (lines_of : BankStatementLine D
        → Option RelatedRecord
        → Reply (Currency D × List (AccountMoveLine D)))
      (s : BankStatementLine D) (d : Decision D)
      → decide m fold threshold journals company_currency lines_of s ≡ answered d
      → IsComplete journals d
  unfolding decide choose_among
  decide-IsComplete fold threshold journals company_currency lines_of s d h =
      let (j, found, h') =
        bind_answered (bank_journal (find_journal s.journal.id journals)) _ d h in
      let (lines, _, h'') =
        bind_answered (lines_of s j.currency) (choose_among m fold s threshold j company_currency) d
          h' in
      let (same, explained) = choose_explained s threshold _ d h'' in
      let (listed, _) = bank_journal-answered (find_journal s.journal.id journals) j found in
      record {
        explained = explained;
        journal = j;
        listed = ap (λ (t : BankStatementLine D). find_journal t.journal.id journals) same ∙ listed;
      }

  decide_statement :
      (fold : String → String) (threshold : D) (journals : List Journal)
      (company_currency : RelatedRecord)
      (lines_of : BankStatementLine D
        → Option RelatedRecord
        → Reply (Currency D × List (AccountMoveLine D)))
      (s : BankStatementLine D) (d : Decision D)
      → decide m fold threshold journals company_currency lines_of s ≡ answered d
      → d.statement ≡ s
  unfolding decide choose_among
  decide_statement fold threshold journals company_currency lines_of s d h =
      let (j, _, h') = bind_answered (bank_journal (find_journal s.journal.id journals)) _ d h in
      let (_, _, h'') =
        bind_answered (lines_of s j.currency) (choose_among m fold s threshold j company_currency) d
          h' in
      (choose_explained s threshold _ d h'').0

  -- If `_decisions` returns, it returns one decision for each statement line, in their order, each
  -- with a match or a reason, and each of a statement whose journal is among the journals.
  pub decisions-IsComplete :
      (fold : String → String) (statements : List (BankStatementLine D))
      (candidates : List (AccountMoveLine D)) (threshold : D) (journals : List Journal)
      (company_currency : RelatedRecord) (currencies : List (Currency D)) (ds : List (Decision D))
      → decisions m fold statements candidates threshold journals company_currency currencies
        ≡ answered ds
      → All (IsComplete journals) ds × (map (λ (d : Decision D). d.statement) ds ≡ statements)
  unfolding decisions settle_all
  decisions-IsComplete fold statements candidates threshold journals company_currency currencies ds
        h =
      let (company_value, _, h0) =
        bind_answered (subscript (find_currency company_currency.id currencies)) _ ds h in
      let (_, _, h') =
        bind_answered
          (crash_unless (lines_round m company_currency company_value currencies candidates)) _ ds
          h0 in
      let lines_of =
        eligible m company_value currencies
          (index_lines m company_currency company_value currencies candidates empty_index) in
      let one = decide m fold threshold journals company_currency lines_of in
      let (provisional, each, h'') =
        bind_answered (for_each one statements) (λ provisional. answered (settle_all provisional))
          ds h' in
      let same : settle_all provisional ≡ ds = cc h'' in
      let complete =
        for_each-All (IsComplete journals) one statements provisional
          (decide-IsComplete fold threshold journals company_currency lines_of) each in
      subst
        (λ es.
          All (IsComplete journals) es × (map (λ (d : Decision D). d.statement) es ≡ statements))
        same
        (
          settled-IsComplete journals provisional provisional complete,
          settled_statements provisional provisional
              ∙ for_each-map (λ (d : Decision D). d.statement) one statements provisional
                  (decide_statement fold threshold journals company_currency lines_of) each,
        )
