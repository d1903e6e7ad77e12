-- ===== src/Storage/Audit/Tamper.antt =====
-- Proofs about the contents of a verified chain.
use native.Mathlib.Decide.{ℕ_discrete}
use odoo_mcp.Prelude.{
  String, ◌≡◌, ◌≢◌, refl, sym, ap, ◌∙◌, ◌⊎◌, inl, inr, some, List, [], ◌∷◌, map, str_eq, eq_iff,
  arith, length, Bool-cases,
}
use odoo_mcp.Json.{str, Dict, get}
use odoo_mcp.Storage.Platform.{Platform}
use odoo_mcp.Storage.Models.{AuditRecord}
use odoo_mcp.Storage.Event.{hash_payload, record_values}
use odoo_mcp.Storage.Audit.{genesis_hash, check_chain}

String-discrete : Discrete String
String-discrete s t = elim (Bool-cases (str_eq s t)) [
  | inl e ↦ yes ((eq_iff s t).0 e)
  | inr e ↦ no (λ q. cc (e, (eq_iff s t).1 q))
]

Dict-discrete : Discrete Dict
Dict-discrete = hlevel (ℕ_discrete, String-discrete)

module _ (p : Platform) where
  -- Two different dicts with one hash.
  abbrev pub Collision : Type 0
  Collision = (v w : Dict) × (v ≢ w) × (hash_payload p v ≡ hash_payload p w)

  -- The previous hash is one of the hashed columns.
  previous_hashed :
      (r s : AuditRecord)
      → record_values p r ≡ record_values p s
      → r.previous_hash ≡ s.previous_hash
  unfolding record_values get
  previous_hashed r s e =
      let q : some (str r.previous_hash) ≡ some (str s.previous_hash) =
        ap (λ (d : Dict). get "previous_hash" d) e in
      cc

  check_chain-cons :
      (e h : String) (r : AuditRecord) (rs : List AuditRecord)
      → check_chain p e (r ∷ rs) ≡ some h
      → (r.previous_hash ≡ e)
        × (hash_payload p (record_values p r) ≡ r.entry_hash)
        × (check_chain p r.entry_hash rs ≡ some h)
  unfolding check_chain
  check_chain-cons e h r rs c =
      let a = eq_iff r.previous_hash e in
      let b = eq_iff (hash_payload p (record_values p r)) r.entry_hash in
      (ground (arith, a, b), ground (arith, a, b), ground (arith, a, b))

  -- One link further: equal hashes of the heads, from equal tails.
  same_heads :
      (d e h : String) (r s : AuditRecord) (rs ss : List AuditRecord)
      → check_chain p d (r ∷ rs) ≡ some h
      → check_chain p e (s ∷ ss) ≡ some h
      → r.entry_hash ≡ s.entry_hash
      → ((d ≡ e) × (record_values p r ≡ record_values p s)) ⊎ Collision
  same_heads d e h r s rs ss x y q =
      let (r_prev, r_hash, _) = check_chain-cons d h r rs x in
      let (s_prev, s_hash, _) = check_chain-cons e h s ss y in
      elim (Dict-discrete (record_values p r) (record_values p s)) [
        | yes same ↦ inl (sym r_prev ∙ previous_hashed r s same ∙ s_prev, same)
        | no differ ↦ inr (record_values p r, record_values p s, differ, r_hash ∙ q ∙ sym s_hash)
      ]

  same_chains :
      (d e h : String) (rs ss : List AuditRecord)
      → length rs ≡ length ss
      → check_chain p d rs ≡ some h
      → check_chain p e ss ≡ some h
      → ((d ≡ e) × (map (record_values p) rs ≡ map (record_values p) ss)) ⊎ Collision
  same_chains d e h [] [] n x y = inl (unfold check_chain in cc (x, y), refl)
  same_chains d e h [] (s ∷ ss) n x y = absurd (omega arith)
  same_chains d e h (r ∷ rs) [] n x y = absurd (omega arith)
  same_chains d e h (r ∷ rs) (s ∷ ss) n x y =
      elim (same_chains r.entry_hash s.entry_hash h rs ss (omega arith)
        (check_chain-cons d h r rs x).2 (check_chain-cons e h s ss y).2) [
          | inr collision ↦ inr collision
          | inl (q, tails) ↦ elim (same_heads d e h r s rs ss x y q) [
            | inr collision ↦ inr collision
            | inl (de, heads) ↦ inl (de, cc (heads, tails))
          ]
        ]

  -- Two chains of one length that verify from the genesis hash with the same last hash hold the
  -- same hashed contents, record by record, or two different dicts have one hash.
  pub tamper_evident :
      (h : String) (rs ss : List AuditRecord)
      → length rs ≡ length ss
      → check_chain p genesis_hash rs ≡ some h
      → check_chain p genesis_hash ss ≡ some h
      → (map (record_values p) rs ≡ map (record_values p) ss) ⊎ Collision
  tamper_evident h rs ss n x y = elim (same_chains genesis_hash genesis_hash h rs ss n x y) [
    | inl (_, same) ↦ inl same
    | inr collision ↦ inr collision
  ]
