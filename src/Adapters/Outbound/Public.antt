-- ===== src/Adapters/Outbound/Public.antt =====
-- Proofs that only public addresses are connected to.
use odoo_mcp.Prelude.{
  ℕ, ◌≤◌, ◌⊎◌, String, false, ◌≡◌, refl, Option, some, List, [], ◌∷◌, All, length, ltb, ◌==◌, ◌||◌,
  arith, Bool-cases, Option-cases, inl, inr,
}
use odoo_mcp.Workflows.Values.{
  for_each, Reply, answered, refused, crashed, bind_answered, answered_injective,
}
use odoo_mcp.Workflows.Reconcile.Decisions.Each.{for_each-All}
use odoo_mcp.Adapters.Outbound.{
  Network, IpAddress, unmapped, is_forbidden, public_address, answers_of, checked_answers,
  resolve_public, try_addresses, connect_to, connect_tcp, safe_network_error,
}

for_each_inputs :
    {A B : Type 0} (f : A → Reply B) (xs : List A) (bs : List B)
    → for_each f xs ≡ answered bs
    → All (λ x. (b : B) × (f x ≡ answered b)) xs
unfolding for_each
for_each_inputs f [] bs h = tt
for_each_inputs f (x ∷ xs) bs h =
    let (b, first, h') = bind_answered (f x) _ bs h in
    let (rest, others, _) = bind_answered (for_each f xs) (λ rest. answered (b ∷ rest)) bs h' in
    ((b, first), for_each_inputs f xs rest others)

module _ (n : Network) where
  -- The text of an address that an answer names and that is not forbidden.
  pub record IsPublic (address : String) : Type 0 where
    pub answer : String
    pub ip : IpAddress
    pub parsed : n.ip_address answer ≡ some ip
    pub allowed : is_forbidden (unmapped ip) ≡ false
    pub same : (unmapped ip).str ≡ address

  public_address-IsPublic :
      (answer address : String) → public_address n answer ≡ answered address → IsPublic address
  unfolding public_address
  public_address-IsPublic answer address h = elim (Option-cases (n.ip_address answer)) [
    | inl bad ↦
        absurd (let h' : refused safe_network_error ≡ answered address = rw bad at h in cc h')
    | inr (ip, parsed) ↦ elim (Bool-cases (is_forbidden (unmapped ip))) [
      | inl forbidden ↦ absurd (
          let h' : refused safe_network_error ≡ answered address = rw (parsed, forbidden) at h in
          cc h')
      | inr allowed ↦
          (let h' : answered (unmapped ip).str ≡ answered address = rw (parsed, allowed) at h in
            record {
              answer = answer;
              ip = ip;
              parsed = parsed;
              allowed = allowed;
              same = answered_injective h';
            })
    ]
  ]

  resolve_public-IsPublic :
      (max_addresses : ℕ) (host : String) (port : ℕ) (addresses : List String)
      → resolve_public n max_addresses host port ≡ answered addresses
      → All IsPublic addresses
  unfolding resolve_public
  resolve_public-IsPublic max_addresses host port addresses h =
      let (answers, _, h') =
        bind_answered (answers_of n host port) (checked_answers n max_addresses) addresses h in
      let few : (length answers == 0 || ltb max_addresses (length answers)) ≡ false =
        ground arith in
      for_each-All IsPublic (public_address n) answers addresses public_address-IsPublic
        (rw few at h')

module _ (n : Network) {S : Type 0} (backend : String → ℕ → Option S) where
  try_addresses-All :
      (P : String → Type 0) (port : ℕ) (addresses : List String)
      → All P addresses
      → All P (try_addresses backend port addresses).0
  unfolding try_addresses
  try_addresses-All P port [] w = tt
  try_addresses-All P port (a ∷ rest) w = elim (Option-cases (backend a port)) [
    | inl failed ↦ rw failed (w.0, try_addresses-All P port rest w.1)
    | inr (stream, connected) ↦ rw connected (w.0, tt)
  ]

  -- Every answer of the resolution is public, and they are at most as many as allowed.
  pub record Resolves (max_addresses : ℕ) (host : String) (port : ℕ) : Type 0 where
    pub answers : List String
    pub answered_with : answers_of n host port ≡ answered answers
    pub few : length answers ≤ max_addresses
    pub all_public :
        All
          (λ (answer : String). (address : String) × (public_address n answer ≡ answered address))
          answers

  resolve_public-Resolves :
      (max_addresses : ℕ) (host : String) (port : ℕ) (addresses : List String)
      → resolve_public n max_addresses host port ≡ answered addresses
      → Resolves max_addresses host port
  unfolding resolve_public
  resolve_public-Resolves max_addresses host port addresses h =
      let (answers, found, h') =
        bind_answered (answers_of n host port) (checked_answers n max_addresses) addresses h in
      let few : (length answers == 0 || ltb max_addresses (length answers)) ≡ false =
        ground arith in
      record {
        answers = answers;
        answered_with = found;
        few = ground arith;
        all_public = for_each_inputs (public_address n) answers addresses (rw few at h');
      }

  reached :
      (max_addresses : ℕ) (host : String) (port : ℕ) (r : Reply (List String))
      → resolve_public n max_addresses host port ≡ r
      → All (IsPublic n) (connect_to backend port r).0
        × (((connect_to backend port r).0 ≡ []) ⊎ Resolves max_addresses host port)
  reached max_addresses host port (refused e) h = (tt, inl refl)
  reached max_addresses host port crashed h = (tt, inl refl)
  reached max_addresses host port (answered addresses) h = (
    try_addresses-All (IsPublic n) port addresses
        (resolve_public-IsPublic n max_addresses host port addresses h),
    inr (resolve_public-Resolves max_addresses host port addresses h),
  )

  -- Every address that connect_tcp tries is the text of a public one, and it tries none unless every
  -- answer of this very resolution is public and they are at most as many as allowed.
  pub connect_tcp-IsPublic :
      (max_addresses : ℕ) (host : String) (port : ℕ)
      → All (IsPublic n) (connect_tcp n max_addresses backend host port).0
        × (((connect_tcp n max_addresses backend host port).0 ≡ [])
            ⊎ Resolves max_addresses host port)
  unfolding connect_tcp
  connect_tcp-IsPublic max_addresses host port =
      reached max_addresses host port (resolve_public n max_addresses host port) refl
