-- ===== src/App/Tokens/Exchange.antt =====
-- `_issue_tokens`, `exchange_authorization_code`, `exchange_refresh_token` and
-- `_revoke_connector_in_transaction` of src/odoo_mcp/app/shared_auth.py.
use odoo_mcp.Prelude.{
  ℕ, ◌+◌, String, Bool, true, false, ◌&&◌, ◌||◌, not, Option, none, some, List, [], ◌∷◌, ◌++◌, map,
  any_of, all_of, str_eq, if◌then◌else◌,
}
use odoo_mcp.App.Tokens.{
  TokenType, access, refresh, type_eq, TokenRow, Grant, ConnectionStatus, pending, active, revoked,
  expired, ErpConnection, Session, AuthDb, Joined, token_row,
}

-- The seconds of `ACCESS_TOKEN_TTL` and of `REFRESH_TOKEN_TTL`.
unfoldable pub access_token_ttl : ℕ
access_token_ttl = 3600

unfoldable pub refresh_token_ttl : ℕ
refresh_token_ttl = 2592000

-- The random values of one issue, by their hashes.
pub record Fresh : Type 0 where
  pub access_hash : String
  pub refresh_hash : String

-- How an exchange ends: with tokens, with a TokenError, or with an error of the database.
pub data Exchange : Type 0 where
  issued : List String → Exchange
  invalid_grant invalid_scope failed : Exchange

abbrev pub token_of : String → String → TokenType → List String → ℕ → TokenRow
token_of token_hash grant_id token_type scopes expires_at = record {
  token_hash = token_hash;
  grant_id = grant_id;
  token_type = token_type;
  scopes = scopes;
  expires_at = expires_at;
  rotated_at = none;
  revoked_at = none;
}

abbrev pub has_token : String → List TokenRow → Bool
has_token token_hash tokens = any_of (λ (t : TokenRow). str_eq t.token_hash token_hash) tokens

abbrev pub is_subset : List String → List String → Bool
is_subset xs ys = all_of (λ x. any_of (λ y. str_eq y x) ys) xs

abbrev pub no_scopes : List String → Bool
no_scopes [] = true
no_scopes (x ∷ xs) = false

-- The trigger `oauth_token_scope_invariant` aborts an INSERT of no scopes and of a scope that the grant
-- has not.
unfoldable pub breaks_invariant : Grant → List String → Bool
breaks_invariant grant scopes = no_scopes scopes || not (is_subset scopes grant.scopes)

-- `_issue_tokens` under the grant of the id; the trigger and the primary key may refuse the INSERT.
unfoldable pub issue_tokens :
    Fresh → Grant → List String → ℕ → List TokenRow → Option (List TokenRow)
issue_tokens fresh grant scopes now tokens =
    if breaks_invariant grant scopes
      || (has_token fresh.access_hash tokens
          || (has_token fresh.refresh_hash tokens || str_eq fresh.access_hash fresh.refresh_hash))
    then none
    else some (
        tokens
        ++ token_of fresh.access_hash grant.id access scopes (now + access_token_ttl)
          ∷ token_of fresh.refresh_hash grant.id refresh scopes (now + refresh_token_ttl)
          ∷ [])

-- The end of a transaction that issues tokens: an error keeps the tables as they were.
unfoldable pub finish_issue :
    AuthDb → AuthDb → List String → Option (List TokenRow) → Exchange × AuthDb
finish_issue before written scopes none = (failed, before)
finish_issue before written scopes (some tokens) =
    (issued scopes, record written { tokens = tokens })

-- The two updates of the rotation.
abbrev pub rotate : String → ℕ → TokenRow → TokenRow
rotate token_hash now t =
    if str_eq t.token_hash token_hash then record t { rotated_at = some now } else t

abbrev first_revoked : Option ℕ → ℕ → Option ℕ
first_revoked none now = some now
first_revoked (some at) now = some at

abbrev pub revoke_access : String → ℕ → TokenRow → TokenRow
revoke_access grant_id now t =
    if str_eq t.grant_id grant_id && type_eq t.token_type access
    then record t { revoked_at = first_revoked t.revoked_at now }
    else t

unfoldable pub rotated_tokens : String → String → ℕ → List TokenRow → List TokenRow
rotated_tokens token_hash grant_id now tokens =
    map (revoke_access grant_id now) (map (rotate token_hash now) tokens)

unfoldable pub refresh_found :
    AuthDb → Fresh → String → List String → ℕ → Option Joined → Exchange × AuthDb
refresh_found db fresh token_hash requested now none = (invalid_grant, db)
refresh_found db fresh token_hash requested now (some j) =
    if not (is_subset requested j.token.scopes)
    then (invalid_scope, db)
    else finish_issue db db j.token.scopes (
        issue_tokens fresh j.grant j.token.scopes now
          (rotated_tokens token_hash j.grant.id now db.tokens))

abbrev pub requested_scopes : List String → List String → List String
requested_scopes [] scopes = scopes
requested_scopes (x ∷ xs) scopes = x ∷ xs

-- `exchange_refresh_token` of a token that was loaded with these scopes.
unfoldable pub exchange_refresh_token :
    Fresh → String → String → List String → List String → ℕ → AuthDb → Exchange × AuthDb
exchange_refresh_token fresh client_id token_hash loaded scopes now db =
    let requested = requested_scopes scopes loaded in
    if not (is_subset requested loaded)
    then (invalid_scope, db)
    else refresh_found db fresh token_hash requested now
        (token_row db token_hash refresh (some client_id) now)

abbrev revoke_status : ConnectionStatus → ConnectionStatus
revoke_status pending = revoked
revoke_status active = revoked
revoke_status revoked = revoked
revoke_status expired = expired

abbrev pub revoke_grant : String → Grant → Grant
revoke_grant connector_id g =
    if str_eq g.connector_id connector_id then record g { is_active = false } else g

abbrev is_revoked_grant : String → TokenRow → Grant → Bool
is_revoked_grant connector_id t g =
    str_eq g.id t.grant_id && (str_eq g.connector_id connector_id && g.is_active)

abbrev revoke_of : String → ℕ → List Grant → TokenRow → TokenRow
revoke_of connector_id now grants t =
    if any_of (is_revoked_grant connector_id t) grants
    then record t { revoked_at = first_revoked t.revoked_at now }
    else t

-- `_revoke_connector_in_transaction`
unfoldable pub revoke_connector : String → ℕ → AuthDb → AuthDb
revoke_connector connector_id now db = record db {
  tokens = map (revoke_of connector_id now db.grants) db.tokens;
  grants = map (revoke_grant connector_id) db.grants;
  connections =
      map
        (λ (e : ErpConnection).
          if str_eq e.id connector_id then record e { status = revoke_status e.status } else e)
        db.connections;
}

abbrev pub has_code : String → Option String → Bool
has_code code_hash none = false
has_code code_hash (some c) = str_eq c code_hash

abbrev is_connector : Option String → String → Bool
is_connector none id = false
is_connector (some c) id = str_eq id c

-- The WHERE clause on the session.
abbrev pub is_open : String → String → Session → Bool
is_open code_hash client_id s =
    has_code code_hash s.code_hash && (str_eq s.client_id client_id && s.is_authorized)

unfoldable pub session_grant : Session → List Grant → Option Grant
session_grant s [] = none
session_grant s (g ∷ gs) =
    let rest = session_grant s gs in
    if is_connector s.connector_id g.connector_id && (str_eq g.client_id s.client_id && g.is_active)
    then some g
    else rest

abbrev pub with_session :
    Session → Option Grant → Option (Session × Grant) → Option (Session × Grant)
with_session s none rest = rest
with_session s (some g) rest = some (s, g)

unfoldable pub find_session : String → String → List Grant → List Session → Option (Session × Grant)
find_session code_hash client_id grants [] = none
find_session code_hash client_id grants (s ∷ ss) =
    let rest = find_session code_hash client_id grants ss in
    if is_open code_hash client_id s then with_session s (session_grant s grants) rest else rest

abbrev pub consume : String → Session → Session
consume state_hash s =
    if str_eq s.state_hash state_hash && s.is_authorized
    then record s { is_authorized = false }
    else s

unfoldable pub code_found :
    Fresh → List String → ℕ → AuthDb → Option (Session × Grant) → Exchange × AuthDb
code_found fresh scopes now db none = (invalid_grant, db)
code_found fresh scopes now db (some (s, g)) =
    finish_issue db (record db { sessions = map (consume s.state_hash) db.sessions }) scopes
      (issue_tokens fresh g scopes now db.tokens)

-- `exchange_authorization_code` of a code that was loaded with these scopes.
unfoldable pub exchange_authorization_code :
    Fresh → String → String → List String → ℕ → AuthDb → Exchange × AuthDb
exchange_authorization_code fresh client_id code_hash scopes now db =
    code_found fresh scopes now db (find_session code_hash client_id db.grants db.sessions)
