-- ===== src/App/Tokens/Revoked.antt =====
-- Proofs that a revoked connector has no usable token.
use odoo_mcp.Prelude.{
  ℕ, String, false, ◌≡◌, refl, sym, ap, subst, ◌∙◌, Option, none, some, List, [], ◌∷◌, map, str_eq,
  arith, Bool-cases, Option-cases, inl, inr,
}
use odoo_mcp.App.Tokens.{
  TokenType, TokenRow, Grant, ErpConnection, AuthDb, Joined, is_usable, is_granted, join_grant,
  select_token, for_client, token_row,
}
use odoo_mcp.App.Tokens.Exchange.{revoke_grant, revoke_connector}

some_joined : {a b : Joined} → some a ≡ some b → a ≡ b
some_joined h = cc h

join_grant_other :
    (connections : List ErpConnection) (t : TokenRow) (gs : List Grant) (connector_id : String)
    (j : Joined)
    → join_grant connections t (map (revoke_grant connector_id) gs) ≡ some j
    → str_eq j.grant.connector_id connector_id ≡ false
unfolding join_grant
join_grant_other connections t [] connector_id j h = absurd (cc h)
join_grant_other connections t (g ∷ gs) connector_id j h =
    elim (Bool-cases (is_granted connections t (revoke_grant connector_id g))) [
      | inr passed ↦ join_grant_other connections t gs connector_id j (rw passed at h)
      | inl granted ↦ elim (Bool-cases (str_eq g.connector_id connector_id)) [
        | inl same ↦ absurd (ground arith)
        | inr other ↦
            (let joined : Joined = record { token = t; grant = revoke_grant connector_id g } in
              let h' : some joined ≡ some j = rw granted at h in
              subst (λ (k : Joined). str_eq k.grant.connector_id connector_id ≡ false)
                (some_joined h') (ground arith))
      ]
    ]

select_token_other :
    (token_hash : String) (token_type : TokenType) (now' : ℕ) (db : AuthDb) (gs : List Grant)
    (ts : List TokenRow) (connector_id : String) (j : Joined)
    → db.grants ≡ map (revoke_grant connector_id) gs
    → select_token token_hash token_type now' db ts ≡ some j
    → str_eq j.grant.connector_id connector_id ≡ false
unfolding select_token
select_token_other token_hash token_type now' db gs [] connector_id j all_revoked h = absurd (cc h)
select_token_other token_hash token_type now' db gs (t ∷ ts) connector_id j all_revoked h =
    let later = select_token_other token_hash token_type now' db gs ts connector_id j all_revoked in
    elim (Bool-cases (is_usable token_hash token_type now' t)) [
      | inr unusable ↦ later (rw unusable at h)
      | inl usable ↦ elim (Option-cases (join_grant db.connections t db.grants)) [
        | inl no_grant ↦ later (rw (usable, no_grant) at h)
        | inr (k, joined) ↦
            (let h' : some k ≡ some j = rw (usable, joined) at h in
              join_grant_other db.connections t gs connector_id j
                (ap (λ ks. join_grant db.connections t ks) (sym all_revoked) ∙ joined ∙ h'))
      ]
    ]

pub for_client-some :
    (client_id : Option String) (o : Option Joined) (j : Joined)
    → for_client client_id o ≡ some j
    → o ≡ some j
for_client-some client_id none j h = absurd (cc h)
for_client-some none (some k) j h = h
for_client-some (some c) (some k) j h = ground arith

-- After a connector is revoked, no token is found that is one of its grants', whatever its type and
-- whoever asks, at any time.
pub revoke_connector_lem :
    (connector_id : String) (now : ℕ) (db : AuthDb) (token_hash : String) (token_type : TokenType)
    (client_id : Option String) (later : ℕ) (j : Joined)
    → token_row (revoke_connector connector_id now db) token_hash token_type client_id later
      ≡ some j
    → str_eq j.grant.connector_id connector_id ≡ false
unfolding token_row revoke_connector
revoke_connector_lem connector_id now db token_hash token_type client_id later j h =
    select_token_other token_hash token_type later (revoke_connector connector_id now db) db.grants
      (revoke_connector connector_id now db).tokens connector_id j refl
      (for_client-some client_id _ j h)
