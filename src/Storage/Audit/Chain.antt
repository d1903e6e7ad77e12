-- ===== src/Storage/Audit/Chain.antt =====
-- Proofs about the chain that `append_in_transaction` writes.
use odoo_mcp.Prelude.{
  ℕ, String, ◌≡◌, refl, Option, none, some, List, [], ◌∷◌, ◌++◌, ◌⊎◌, ◌+◌, any_of, is_blank, str_eq,
  eq_iff, arith, Bool-cases, inl, inr, if◌then◌else◌,
}
use odoo_mcp.Json.{Dict}
use odoo_mcp.Json.Redact.Laws.{redact_dict_idem}
use odoo_mcp.Storage.Platform.{Platform}
use odoo_mcp.Storage.Models.{AuditEvent, AuditRecord, StorageError, value_error, integrity_error}
use odoo_mcp.Storage.Event.{hash_payload, record_values, opt_redact}
use odoo_mcp.Storage.Database.{Db, ok, err, Fault, transaction_induction}
use odoo_mcp.Storage.Audit.{
  genesis_hash, tenant_rows, last_hash, next_record, append_in_transaction, append, check_chain,
  required_values, company_invalid, hash_taken,
}

tenant_rows-append :
    (t : String) (rows : List AuditRecord) (r : AuditRecord)
    → tenant_rows t (rows ++ r ∷ [])
      ≡ (if str_eq r.event.tenant_id t then tenant_rows t rows ++ r ∷ [] else tenant_rows t rows)
unfolding tenant_rows
tenant_rows-append t [] r = refl
tenant_rows-append t (x ∷ rows) r = ground (arith, tenant_rows-append t rows r)

last_hash-append :
    (h : String) (rows : List AuditRecord) (r : AuditRecord)
    → last_hash h (rows ++ r ∷ []) ≡ r.entry_hash
unfolding last_hash
last_hash-append h [] r = refl
last_hash-append h (x ∷ rows) r = last_hash-append x.entry_hash rows r

module _ (p : Platform) where
  opt_redact_idem : (d : Option Dict) → opt_redact p (opt_redact p d) ≡ opt_redact p d
  opt_redact_idem none = refl
  opt_redact_idem (some d) = cc (redact_dict_idem p.casefold d)

  -- What is hashed for a stored row is what was hashed when it was appended.
  record_values-next_record :
      (event : AuditEvent) (now id : ℕ) (rows : List AuditRecord)
      → hash_payload p (record_values p (next_record p event now id rows))
        ≡ (next_record p event now id rows).entry_hash
  unfolding next_record record_values
  record_values-next_record event now id rows = simp (redact_dict_idem, opt_redact_idem)

  check_chain-append :
      (h : String) (rows : List AuditRecord) (r : AuditRecord)
      → check_chain p h rows ≡ some (last_hash h rows)
      → r.previous_hash ≡ last_hash h rows
      → hash_payload p (record_values p r) ≡ r.entry_hash
      → check_chain p h (rows ++ r ∷ []) ≡ some r.entry_hash
  unfolding check_chain last_hash
  check_chain-append h [] r c prev good =
      ground
        (arith, eq_iff r.previous_hash h, eq_iff (hash_payload p (record_values p r)) r.entry_hash)
  check_chain-append h (x ∷ rows) r c prev good =
      ground (arith, check_chain-append x.entry_hash rows r)

  -- The chain of every tenant passes the check from the genesis hash.
  abbrev pub IsChained : List AuditRecord → Type 0
  IsChained rows =
      (t : String)
      → check_chain p genesis_hash (tenant_rows t rows)
        ≡ some (last_hash genesis_hash (tenant_rows t rows))

  own_chain :
      (event : AuditEvent) (now id : ℕ) (rows : List AuditRecord)
      → IsChained rows
      → let r = next_record p event now id (tenant_rows event.tenant_id rows) in
        check_chain p genesis_hash (tenant_rows event.tenant_id rows ++ r ∷ []) ≡ some r.entry_hash
  own_chain event now id rows h =
      let own = tenant_rows event.tenant_id rows in
      let r = next_record p event now id own in
      check_chain-append genesis_hash own r (h event.tenant_id) (unfold next_record in refl)
        (record_values-next_record event now id own)

  next_record-IsChained :
      (event : AuditEvent) (now id : ℕ) (rows : List AuditRecord)
      → IsChained rows
      → IsChained (rows ++ next_record p event now id (tenant_rows event.tenant_id rows) ∷ [])
  unfolding next_record
  next_record-IsChained event now id rows h t =
      let r = next_record p event now id (tenant_rows event.tenant_id rows) in
      let named : r.event.tenant_id ≡ event.tenant_id = unfold next_record in refl in
      rw (tenant_rows-append, named)
        (elim (Bool-cases (str_eq event.tenant_id t)) [
          | inl same ↦
              let e = (eq_iff event.tenant_id t).0 same in
              rw (same, ← e, last_hash-append) (own_chain event now id rows h)
          | inr other ↦ rw other (h t)
        ])

  -- An append leaves the tables alone, or adds the next record of its tenant and nothing else.
  pub append_cases :
      (now : ℕ) (event : AuditEvent) (db : Db)
      → let r = next_record p event now db.audit_next (tenant_rows event.tenant_id db.audit_log) in
        ((e : StorageError) × (append_in_transaction p now event db ≡ (err e, db)))
        ⊎ (append_in_transaction p now event db ≡ (
          ok r,
          record db { audit_log = db.audit_log ++ r ∷ []; audit_next = db.audit_next + 1 },
        ))
  unfolding append_in_transaction
  append_cases now event db = elim (Bool-cases (any_of is_blank (required_values event))) [
    | inl blank ↦ inl (value_error, rw blank)
    | inr named ↦ elim (Bool-cases (company_invalid event.company_id)) [
      | inl bad ↦ inl (value_error, rw (named, bad))
      | inr good ↦
          (let r =
              next_record p event now db.audit_next (tenant_rows event.tenant_id db.audit_log) in
            elim (Bool-cases
              (hash_taken r.entry_hash (tenant_rows r.event.tenant_id db.audit_log))) [
                | inl taken ↦ inl (integrity_error, rw (named, good, taken))
                | inr fresh ↦ inr (rw (named, good, fresh))
              ])
    ]
  ]

  pub append_in_transaction-IsChained :
      (now : ℕ) (event : AuditEvent) (db : Db)
      → IsChained db.audit_log
      → IsChained (append_in_transaction p now event db).1.audit_log
  append_in_transaction-IsChained now event db h = elim (append_cases now event db) [
    | inl (e, failed) ↦ rw failed h
    | inr done ↦ rw done (next_record-IsChained event now db.audit_next db.audit_log h)
  ]

  -- Appending, committed or not, keeps every tenant's chain verifiable.
  pub append-IsChained :
      (fault : Fault) (now : ℕ) (event : AuditEvent) (db : Db)
      → IsChained db.audit_log
      → IsChained (append p fault now event db).1.audit_log
  unfolding append
  append-IsChained fault now event db h =
      transaction_induction (λ d. IsChained d.audit_log) fault (append_in_transaction p now event)
        db h (append_in_transaction-IsChained now event db h)
