-- ===== src/App/Tokens/Codes.antt =====
-- Proofs that an authorization code is exchanged once.
use odoo_mcp.Prelude.{
  ℕ, String, true, false, ◌≡◌, refl, sym, ap, subst, ◌∙◌, Option, none, some, List, [], ◌∷◌, map,
  str_eq, eq_iff, arith, All, Bool-cases, Option-cases, inl, inr,
}
use odoo_mcp.App.Tokens.{Grant, Session, AuthDb, TokenRow}
use odoo_mcp.App.Tokens.Exchange.{
  Fresh, Exchange, issued, invalid_grant, issue_tokens, finish_issue, has_code, is_open,
  session_grant, find_session, consume, code_found, exchange_authorization_code,
}

-- The sessions of a code are one session: the column is UNIQUE and the state is the primary key.
abbrev pub HasOneState : String → String → List Session → Type 0
HasOneState code_hash state_hash sessions =
    All (λ (s : Session). has_code code_hash s.code_hash ≡ true → s.state_hash ≡ state_hash)
      sessions

found_state :
    (code_hash client_id state_hash : String) (grants : List Grant) (ss : List Session)
    (s : Session) (g : Grant)
    → HasOneState code_hash state_hash ss
    → find_session code_hash client_id grants ss ≡ some (s, g)
    → s.state_hash ≡ state_hash
unfolding find_session
found_state code_hash client_id state_hash grants [] s g w h = absurd (cc h)
found_state code_hash client_id state_hash grants (t ∷ ts) s g w h =
    let later = found_state code_hash client_id state_hash grants ts s g w.1 in
    elim (Bool-cases (is_open code_hash client_id t)) [
      | inr closed ↦ later (rw closed at h)
      | inl is_opened ↦ elim (Option-cases (session_grant t grants)) [
        | inl no_grant ↦ later (rw (is_opened, no_grant) at h)
        | inr (k, granted) ↦
            (let coded : has_code code_hash t.code_hash ≡ true = ground arith in
              let h' : some (t, k) ≡ some (s, g) = rw (is_opened, granted) at h in
              let same : t ≡ s = cc h' in
              subst (λ (r : Session). r.state_hash ≡ state_hash) same (w.0 coded))
      ]
    ]

consume_closed :
    (code_hash client_id state_hash : String) (s : Session)
    → (has_code code_hash s.code_hash ≡ true → s.state_hash ≡ state_hash)
    → is_open code_hash client_id (consume state_hash s) ≡ false
consume_closed code_hash client_id state_hash s one =
    elim (Bool-cases (has_code code_hash s.code_hash)) [
      | inr other ↦ ground arith
      | inl same ↦
          (let here : str_eq s.state_hash state_hash ≡ true =
              (eq_iff s.state_hash state_hash).1 (one same) in
            ground arith)
    ]

consumed_none :
    (code_hash client_id state_hash : String) (grants : List Grant) (ss : List Session)
    → HasOneState code_hash state_hash ss
    → find_session code_hash client_id grants (map (consume state_hash) ss) ≡ none
unfolding find_session
consumed_none code_hash client_id state_hash grants [] w = refl
consumed_none code_hash client_id state_hash grants (s ∷ ss) w =
    rw (consume_closed code_hash client_id state_hash s w.0)
      (consumed_none code_hash client_id state_hash grants ss w.1)

finish_issue_sessions :
    (before written db : AuthDb) (scopes out : List String) (o : Option (List TokenRow))
    → finish_issue before written scopes o ≡ (issued out, db)
    → (written.sessions ≡ db.sessions) × (written.grants ≡ db.grants)
unfolding finish_issue
finish_issue_sessions before written db scopes out none h =
    absurd (cc (ap (λ (p : Exchange × AuthDb). p.0) h))
finish_issue_sessions before written db scopes out (some tokens) h =
    (ap (λ (p : Exchange × AuthDb). p.1.sessions) h, ap (λ (p : Exchange × AuthDb). p.1.grants) h)

-- If the sessions of a code are one session and the code is exchanged for tokens, every later
-- exchange of it is refused as an invalid grant and changes nothing, whichever client asks.
pub exchange_authorization_code_once :
    (fresh again : Fresh) (client_id other_client code_hash state_hash : String)
    (scopes out other_scopes : List String) (now later : ℕ) (db db' : AuthDb)
    → HasOneState code_hash state_hash db.sessions
    → exchange_authorization_code fresh client_id code_hash scopes now db ≡ (issued out, db')
    → exchange_authorization_code again other_client code_hash other_scopes later db'
      ≡ (invalid_grant, db')
unfolding exchange_authorization_code code_found
exchange_authorization_code_once fresh again client_id other_client code_hash state_hash scopes out
      other_scopes now later db db' w h =
    elim (Option-cases (find_session code_hash client_id db.grants db.sessions)) [
      | inl missing ↦ absurd (
          let h' : (invalid_grant, db) ≡ (issued out, db') = rw missing at h in
          cc (ap (λ (p : Exchange × AuthDb). p.0) h'))
      | inr ((s, g), found) ↦
          (let written : AuthDb = record db { sessions = map (consume s.state_hash) db.sessions } in
            let (sessions, _) =
              finish_issue_sessions db written db' scopes out
                (issue_tokens fresh g scopes now db.tokens) (rw found at h) in
            let state =
              found_state code_hash client_id state_hash db.grants db.sessions s g w found in
            let nothing : find_session code_hash other_client db'.grants db'.sessions ≡ none =
              ap (λ ss. find_session code_hash other_client db'.grants ss) (sym sessions)
              ∙ ap
                  (λ st.
                    find_session code_hash other_client db'.grants (map (consume st) db.sessions))
                  state
              ∙ consumed_none code_hash other_client state_hash db'.grants db.sessions w in
            ap (code_found again other_scopes later db') nothing)
    ]
