-- ===== src/App/Tokens/Rotation.antt =====
-- Proofs that a refresh token is exchanged once.
use odoo_mcp.Prelude.{
  ℕ, String, true, false, ◌||◌, ◌≡◌, ◌≢◌, refl, sym, ap, subst, ◌∙◌, Option, none, some, List, [],
  ◌∷◌, str_eq, eq_iff, arith, All, All-append, Bool-cases, Option-cases, inl, inr,
}
use odoo_mcp.App.Tokens.{
  TokenType, refresh, TokenRow, Grant, AuthDb, Joined, is_usable, select_token, for_client,
  token_row,
}
use odoo_mcp.App.Tokens.Revoked.{for_client-some}
use odoo_mcp.App.Tokens.Exchange.{
  Fresh, Exchange, issued, invalid_scope, has_token, breaks_invariant, issue_tokens, finish_issue,
  rotate, revoke_access, rotated_tokens, refresh_found, requested_scopes, is_subset,
  exchange_refresh_token,
}

some_tokens : {a b : List TokenRow} → some a ≡ some b → a ≡ b
some_tokens h = cc h

select_token-none :
    (token_hash : String) (token_type : TokenType) (now : ℕ) (db : AuthDb) (ts : List TokenRow)
    → All (λ t. is_usable token_hash token_type now t ≡ false) ts
    → select_token token_hash token_type now db ts ≡ none
unfolding select_token
select_token-none token_hash token_type now db [] w = refl
select_token-none token_hash token_type now db (t ∷ ts) w =
    rw w.0 (select_token-none token_hash token_type now db ts w.1)

select_token-has_token :
    (token_hash : String) (token_type : TokenType) (now : ℕ) (db : AuthDb) (ts : List TokenRow)
    (j : Joined)
    → select_token token_hash token_type now db ts ≡ some j
    → has_token token_hash ts ≡ true
unfolding select_token
select_token-has_token token_hash token_type now db [] j h = absurd (cc h)
select_token-has_token token_hash token_type now db (t ∷ ts) j h =
    elim (Bool-cases (is_usable token_hash token_type now t)) [
      | inl usable ↦ ground arith
      | inr unusable ↦
          (let rest = select_token-has_token token_hash token_type now db ts j (rw unusable at h) in
            ground (arith, rest))
    ]

rotated_hash :
    (token_hash grant_id : String) (now : ℕ) (t : TokenRow)
    → (revoke_access grant_id now (rotate token_hash now t)).token_hash ≡ t.token_hash
rotated_hash token_hash grant_id now t = ground arith

has_token-rotated_tokens :
    (other token_hash grant_id : String) (now : ℕ) (ts : List TokenRow)
    → has_token other (rotated_tokens token_hash grant_id now ts) ≡ has_token other ts
unfolding rotated_tokens
has_token-rotated_tokens other token_hash grant_id now [] = refl
has_token-rotated_tokens other token_hash grant_id now (t ∷ ts) =
    rw (rotated_hash token_hash grant_id now t) (
      ap (λ b. str_eq t.token_hash other || b)
        (has_token-rotated_tokens other token_hash grant_id now ts))

rotated_unusable :
    (token_hash grant_id : String) (token_type : TokenType) (now later : ℕ) (t : TokenRow)
    → is_usable token_hash token_type later (revoke_access grant_id now (rotate token_hash now t))
      ≡ false
rotated_unusable token_hash grant_id token_type now later t = ground arith

rotated_tokens_unusable :
    (token_hash grant_id : String) (token_type : TokenType) (now later : ℕ) (ts : List TokenRow)
    → All
        (λ t. is_usable token_hash token_type later t ≡ false)
        (rotated_tokens token_hash grant_id now ts)
unfolding rotated_tokens
rotated_tokens_unusable token_hash grant_id token_type now later [] = tt
rotated_tokens_unusable token_hash grant_id token_type now later (t ∷ ts) = (
  rotated_unusable token_hash grant_id token_type now later t,
  rotated_tokens_unusable token_hash grant_id token_type now later ts,
)

-- A hash that no token has is another one than that of a token.
fresh_other :
    (fresh_hash token_hash : String) (ts : List TokenRow)
    → has_token fresh_hash ts ≡ false
    → has_token token_hash ts ≡ true
    → str_eq fresh_hash token_hash ≡ false
fresh_other fresh_hash token_hash ts absent present =
    elim (Bool-cases (str_eq fresh_hash token_hash)) [
      | inr other ↦ other
      | inl same ↦
          (let is : fresh_hash ≡ token_hash = (eq_iff fresh_hash token_hash).0 same in
            let absent' : has_token token_hash ts ≡ false =
              subst (λ h. has_token h ts ≡ false) is absent in
            absurd (let e : true ≡ false = sym present ∙ absent' in cc e))
    ]

issue_tokens_unusable :
    (fresh : Fresh) (token_hash : String) (grant : Grant) (scopes : List String) (now later : ℕ)
    (token_type : TokenType) (ts tokens : List TokenRow)
    → has_token token_hash ts ≡ true
    → All (λ t. is_usable token_hash token_type later t ≡ false) ts
    → issue_tokens fresh grant scopes now ts ≡ some tokens
    → All (λ t. is_usable token_hash token_type later t ≡ false) tokens
unfolding issue_tokens
issue_tokens_unusable fresh token_hash grant scopes now later token_type ts tokens present w h =
    elim (Bool-cases (
      breaks_invariant grant scopes
      || (has_token fresh.access_hash ts
          || (has_token fresh.refresh_hash ts || str_eq fresh.access_hash fresh.refresh_hash)))) [
            | inl collides ↦ absurd (let h' : none ≡ some tokens = rw collides at h in cc h')
            | inr free ↦
                (let access_other =
                    fresh_other fresh.access_hash token_hash ts (ground arith) present in
                  let refresh_other =
                    fresh_other fresh.refresh_hash token_hash ts (ground arith) present in
                  let h' : some _ ≡ some tokens = rw free at h in
                  subst (All (λ t. is_usable token_hash token_type later t ≡ false))
                    (some_tokens h')
                    (All-append (λ t. is_usable token_hash token_type later t ≡ false) ts _ w
                      (rw access_other refl, (rw refresh_other refl, tt))))
          ]

finish_issue_issued :
    (before written db : AuthDb) (scopes out : List String) (o : Option (List TokenRow))
    → finish_issue before written scopes o ≡ (issued out, db)
    → (tokens : List TokenRow) × (o ≡ some tokens) × (db.tokens ≡ tokens)
unfolding finish_issue
finish_issue_issued before written db scopes out none h =
    absurd (cc (ap (λ (p : Exchange × AuthDb). p.0) h))
finish_issue_issued before written db scopes out (some tokens) h =
    (tokens, refl, sym (ap (λ (p : Exchange × AuthDb). p.1.tokens) h))

refresh_found_once :
    (fresh : Fresh) (token_hash : String) (requested out : List String) (now later : ℕ)
    (db db' : AuthDb) (token_type : TokenType) (client_id : Option String) (o : Option Joined)
    → (o ≢ none → has_token token_hash db.tokens ≡ true)
    → refresh_found db fresh token_hash requested now o ≡ (issued out, db')
    → token_row db' token_hash token_type client_id later ≡ none
unfolding refresh_found token_row
refresh_found_once fresh token_hash requested out now later db db' token_type client_id none present
      h =
    absurd (cc (ap (λ (p : Exchange × AuthDb). p.0) h))
refresh_found_once fresh token_hash requested out now later db db' token_type client_id (some j)
      present h =
    elim (Bool-cases (is_subset requested j.token.scopes)) [
      | inr outside ↦ absurd (
          let h' : (invalid_scope, db) ≡ (issued out, db') = rw outside at h in
          cc (ap (λ (p : Exchange × AuthDb). p.0) h'))
      | inl inside ↦
          (let rotated = rotated_tokens token_hash j.grant.id now db.tokens in
            let (tokens, wrote, same) =
              finish_issue_issued db db db' j.token.scopes out
                (issue_tokens fresh j.grant j.token.scopes now rotated) (rw inside at h) in
            let there : has_token token_hash rotated ≡ true =
              has_token-rotated_tokens token_hash token_hash j.grant.id now db.tokens
              ∙ present (λ e. cc e) in
            let unusable =
              issue_tokens_unusable fresh token_hash j.grant j.token.scopes now later token_type
                rotated tokens there
                (rotated_tokens_unusable token_hash j.grant.id token_type now later db.tokens)
                wrote in
            let nothing : select_token token_hash token_type later db' db'.tokens ≡ none =
              ap (λ ts. select_token token_hash token_type later db' ts) same
              ∙ select_token-none token_hash token_type later db' tokens unusable in
            ap (for_client client_id) nothing)
    ]

token_row-has_token :
    (db : AuthDb) (token_hash client_id : String) (now : ℕ)
    → token_row db token_hash refresh (some client_id) now ≢ none
    → has_token token_hash db.tokens ≡ true
unfolding token_row
token_row-has_token db token_hash client_id now found =
    elim (Option-cases
      (for_client (some client_id) (select_token token_hash refresh now db db.tokens))) [
        | inl missing ↦ absurd (found missing)
        | inr (j, selected) ↦ select_token-has_token token_hash refresh now db db.tokens j (
            for_client-some (some client_id) (select_token token_hash refresh now db db.tokens) j
              selected)
      ]

-- If a refresh token is exchanged for new tokens, it is found no more afterwards: not by any client,
-- as a token of any type, at any time.
pub exchange_refresh_token_once :
    (fresh : Fresh) (client_id token_hash : String) (loaded scopes out : List String) (now : ℕ)
    (db db' : AuthDb) (token_type : TokenType) (other_client : Option String) (later : ℕ)
    → exchange_refresh_token fresh client_id token_hash loaded scopes now db ≡ (issued out, db')
    → token_row db' token_hash token_type other_client later ≡ none
unfolding exchange_refresh_token
exchange_refresh_token_once fresh client_id token_hash loaded scopes out now db db' token_type
      other_client later h =
    let requested = requested_scopes scopes loaded in
    elim (Bool-cases (is_subset requested loaded)) [
      | inr outside ↦ absurd (
          let h' : (invalid_scope, db) ≡ (issued out, db') = rw outside at h in
          cc (ap (λ (p : Exchange × AuthDb). p.0) h'))
      | inl inside ↦
          refresh_found_once fresh token_hash requested out now later db db' token_type other_client
            (token_row db token_hash refresh (some client_id) now)
            (token_row-has_token db token_hash client_id now) (rw inside at h)
    ]
