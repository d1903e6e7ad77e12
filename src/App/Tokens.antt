-- ===== src/App/Tokens.antt =====
-- The tokens of `SharedOAuthProvider` (src/odoo_mcp/app/shared_auth.py): their issue, their lookup, the
-- rotation of a refresh token and the revocation of a connector. The tables hold the columns that
-- these read and write, and a time is in seconds. The audit events are left out.
pub mod Exchange
pub mod Revoked
pub mod Rotation
pub mod Codes
use odoo_mcp.Prelude.{
  ℕ, ◌+◌, String, Bool, true, false, ◌&&◌, ◌||◌, not, Option, none, some, List, [], ◌∷◌, ◌++◌, map,
  any_of, all_of, filter_by, str_eq, ltb, if◌then◌else◌,
}

pub data TokenType : Type 0 where
  access refresh : TokenType

abbrev pub type_eq : TokenType → TokenType → Bool
type_eq access access = true
type_eq refresh refresh = true
type_eq access refresh = false
type_eq refresh access = false

-- A row of `oauth_tokens`.
pub record TokenRow : Type 0 where
  pub token_hash : String
  pub grant_id : String
  pub token_type : TokenType
  pub scopes : List String
  pub expires_at : ℕ
  pub rotated_at : Option ℕ
  pub revoked_at : Option ℕ

-- A row of `oauth_grants`; it is active or revoked.
pub record Grant : Type 0 where
  pub id : String
  pub connector_id : String
  pub tenant_id : String
  pub client_id : String
  pub resource : String
  pub scopes : List String
  pub is_active : Bool

pub data ConnectionStatus : Type 0 where
  pending active revoked expired : ConnectionStatus

-- A row of `erp_connections`.
pub record ErpConnection : Type 0 where
  pub id : String
  pub tenant_id : String
  pub status : ConnectionStatus

-- A row of `oauth_authorization_sessions`; it is authorized, or in one of the states that no token is
-- issued in.
pub record Session : Type 0 where
  pub state_hash : String
  pub client_id : String
  pub connector_id : Option String
  pub code_hash : Option String
  pub is_authorized : Bool

pub record AuthDb : Type 0 where
  pub sessions : List Session
  pub tokens : List TokenRow
  pub grants : List Grant
  pub connections : List ErpConnection

-- A row that `_token_row` selects.
pub record Joined : Type 0 where
  pub token : TokenRow
  pub grant : Grant

abbrev is_unset : Option ℕ → Bool
is_unset none = true
is_unset (some t) = false

abbrev is_active_status : ConnectionStatus → Bool
is_active_status pending = false
is_active_status active = true
is_active_status revoked = false
is_active_status expired = false

abbrev is_live : ErpConnection → Bool
is_live e = is_active_status e.status

-- The WHERE clause on the token itself.
abbrev pub is_usable : String → TokenType → ℕ → TokenRow → Bool
is_usable token_hash token_type now t =
    str_eq t.token_hash token_hash
    && (type_eq t.token_type token_type
        && (is_unset t.revoked_at && (is_unset t.rotated_at && ltb now t.expires_at)))

-- The grant's part of the join.
abbrev pub is_granted : List ErpConnection → TokenRow → Grant → Bool
is_granted connections t g =
    str_eq g.id t.grant_id
    && (g.is_active
        && any_of
            (λ (e : ErpConnection).
              str_eq e.tenant_id g.tenant_id && (str_eq e.id g.connector_id && is_live e))
            connections)

unfoldable pub join_grant : List ErpConnection → TokenRow → List Grant → Option Joined
join_grant connections t [] = none
join_grant connections t (g ∷ gs) =
    let rest = join_grant connections t gs in
    if is_granted connections t g then some (record { token = t; grant = g }) else rest

abbrev pub or_joined : Option Joined → Option Joined → Option Joined
or_joined none other = other
or_joined (some j) other = some j

unfoldable pub select_token : String → TokenType → ℕ → AuthDb → List TokenRow → Option Joined
select_token token_hash token_type now db [] = none
select_token token_hash token_type now db (t ∷ ts) =
    let rest = select_token token_hash token_type now db ts in
    if is_usable token_hash token_type now t
    then or_joined (join_grant db.connections t db.grants) rest
    else rest

abbrev for_client : Option String → Option Joined → Option Joined
for_client client_id none = none
for_client none (some j) = some j
for_client (some c) (some j) = if str_eq j.grant.client_id c then some j else none

-- `_token_row`
unfoldable pub token_row : AuthDb → String → TokenType → Option String → ℕ → Option Joined
token_row db token_hash token_type client_id now =
    for_client client_id (select_token token_hash token_type now db db.tokens)
