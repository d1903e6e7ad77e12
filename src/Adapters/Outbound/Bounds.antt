-- ===== src/Adapters/Outbound/Bounds.antt =====
-- Proofs about how much of a response is read.
use odoo_mcp.Prelude.{
  ℕ, ◌+◌, ◌≤◌, ◌<◌, Bool, true, false, ◌≡◌, refl, ap, List, [], ◌∷◌, ltb, arith, Bool-cases, inl,
  inr,
}
use odoo_mcp.Adapters.Outbound.{bounded_stream}

module _ {C : Type 0} (len : C → ℕ) where
  abbrev pub total_length : List C → ℕ
  total_length [] = 0
  total_length (c ∷ chunks) = len c + total_length chunks

  abbrev pub Delivers : ℕ → ℕ → List C → List C × Bool → Type 0
  Delivers limit seen chunks (out, ended) =
      (seen + total_length out ≤ limit)
      × (ended ≡ true → out ≡ chunks)
      × (ended ≡ false → limit < seen + total_length chunks)

  bounded_from :
      (limit seen : ℕ) (chunks : List C)
      → seen ≤ limit
      → Delivers limit seen chunks (bounded_stream len limit seen chunks)
  unfolding bounded_stream
  bounded_from limit seen [] few = (omega arith, λ e. refl, λ e. absurd (cc e))
  bounded_from limit seen (c ∷ chunks) few = elim (Bool-cases (ltb limit (seen + len c))) [
    | inl over ↦ rw over (omega arith, λ e. absurd (cc e), λ e. ground arith)
    | inr inside ↦
        (let (bound, whole, cut) = bounded_from limit (seen + len c) chunks (ground arith) in
          rw inside
            (omega (arith, bound), λ e. ap (λ rest. c ∷ rest) (whole e), λ e. omega (arith, cut e)))
  ]

  -- No more than the limit is yielded; if the stream ends, it has yielded every chunk, and if it
  -- raises, the response is longer than the limit.
  pub bounded_stream-Delivers :
      (limit : ℕ) (chunks : List C) → Delivers limit 0 chunks (bounded_stream len limit 0 chunks)
  bounded_stream-Delivers limit chunks = bounded_from limit 0 chunks (omega arith)
