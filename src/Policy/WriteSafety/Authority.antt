-- ===== src/Policy/WriteSafety/Authority.antt =====
-- Proofs about `_gate_error`, and about the callbacks that it stands before.
use mathlib.Core.List.{Mem, mem-cons_self, mem-cons_of_mem}
use odoo_mcp.Prelude.{
  ℕ, ◌+◌, ℤ, pos, negsuc, leb_ℤ, eqb_ℤ, eqb_ℤ_iff, String, Bool, true, false, ◌≡◌, ◌≢◌, refl, sym,
  subst, ap, ◌-◌, inl, inr, Option, none, some, List, [], ◌∷◌, str_eq, eq_iff, arith, any_of,
  if_induction, Bool-cases,
}
use odoo_mcp.Errors.{OdooMcpError}
use odoo_mcp.Storage.Database.{Db}
use odoo_mcp.Policy.WriteSafety.Types.{
  ToolDefinition, ConnectionBinding, CapabilitySnapshot, WriteCommand, Request,
}
use odoo_mcp.Policy.WriteSafety.Gate.{
  write_tool_definition_is_valid, gate_error, module_available, reserved_key_used,
}
use odoo_mcp.Policy.WriteSafety.Steps.{Step, append_or_fail}
use odoo_mcp.Policy.WriteSafety.Run.{run, after_gate, gate}

-- What a caller needs for any write: the permission of the tool, a company of the connection, the
-- capability of the tool if it has one, and a payload that sets no write control.
pub record Authorized (binding : ConnectionBinding) (definition : ToolDefinition)
    (snapshot : CapabilitySnapshot) (command : WriteCommand) : Type 0 where
  pub permitted : Mem definition.required_permission binding.permissions
  pub company : Mem command.company_id binding.allowed_company_ids
  pub positive : (n : ℕ) × (command.company_id ≡ pos (n + 1))
  pub capable :
      (name : String)
      → definition.required_capability ≡ some name
      → module_available name snapshot.modules ≡ true
  pub unreserved : reserved_key_used command.request_payload ≡ false

any_of-Mem {ℓ} :
    {A : Type ℓ} (f : A → Bool) (a : A) (xs : List A)
    → ((x : A) → f x ≡ true → a ≡ x)
    → any_of f xs ≡ true
    → Mem a xs
any_of-Mem f a [] same h = absurd (cc h)
any_of-Mem f a (x ∷ xs) same h = elim (Bool-cases (f x)) [
  | inl here ↦ subst (λ y. Mem a (y ∷ xs)) (same x here) mem-cons_self
  | inr no_match ↦ mem-cons_of_mem x (any_of-Mem f a xs same (ground (arith, h, no_match)))
]

module _ (b : ConnectionBinding) (d : ToolDefinition) (s : CapabilitySnapshot)
    (c : WriteCommand) where
  positive_pos : (i : ℤ) → leb_ℤ i (pos 0) ≡ false → (n : ℕ) × (i ≡ pos (n + 1))
  positive_pos (pos n) h = (n - 1, ap pos (ground arith))
  positive_pos (negsuc n) h = absurd (ground arith)

  gate_error-Authorized : gate_error b d s c ≡ none → Authorized b d s c
  unfolding gate_error
  gate_error-Authorized h = record {
    permitted =
        any_of-Mem (λ j. str_eq j d.required_permission) d.required_permission b.permissions
          (λ x e. sym ((eq_iff x d.required_permission).0 e)) (ground arith);
    company =
        any_of-Mem (λ i. eqb_ℤ i c.company_id) c.company_id b.allowed_company_ids
          (λ x e. sym ((eqb_ℤ_iff x c.company_id).0 e)) (ground arith);
    positive = positive_pos c.company_id (ground arith);
    capable = λ name e. ground arith;
    unreserved = ground arith;
  }

gate-none :
    (q : Request) → gate q ≡ none → gate_error q.binding q.definition q.snapshot q.command ≡ none
gate-none q h = preflight q.preflight_error h
  where
    preflight :
        (o : Option OdooMcpError)
        → (elim o as (λ _. Option OdooMcpError) [
          | none ↦ gate_error q.binding q.definition q.snapshot q.command
          | some e ↦ some e
        ])
          ≡ none
        → gate_error q.binding q.definition q.snapshot q.command ≡ none
    preflight none e = e
    preflight (some x) e = absurd (cc e)

after_gate-passed :
    (q : Request) (o : Option OdooMcpError) (db : Db) → (after_gate q o db).calls ≢ [] → o ≡ none
unfolding after_gate append_or_fail
after_gate-passed q none db h = refl
after_gate-passed q (some e) db h = absurd (h refl)

-- No callback is called for a caller without authority, in a preview neither: if a run calls any,
-- the tool's permission is granted to the caller, the company is a positive id among those of the
-- connection, the tool's capability is available and the payload sets no write control.
pub run-Authorized :
    (q : Request) (db : Db)
    → (run q db).calls ≢ []
    → Authorized q.binding q.definition q.snapshot q.command
unfolding run
run-Authorized q db =
    if_induction {A = Step}
      (λ s. s.calls ≢ [] → Authorized q.binding q.definition q.snapshot q.command)
      (write_tool_definition_is_valid q.definition) _ _
      (λ _ h.
        gate_error-Authorized q.binding q.definition q.snapshot q.command
          (gate-none q (after_gate-passed q (gate q) db h)))
      (λ _ h. absurd (h refl))
