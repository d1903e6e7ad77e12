-- ===== src/Tests/Access.antt =====
-- The tokens of a small service.
use odoo_mcp.Prelude.{String, true, false, ◌≡◌, refl, none, some, [], ◌∷◌, str_eq}
use odoo_mcp.App.Tokens.{
  Grant, ErpConnection, AuthDb, Joined, access, refresh, active, join_grant, select_token,
  token_row,
}
use odoo_mcp.App.Tokens.Exchange.{
  Fresh, issued, invalid_grant, token_of, breaks_invariant, issue_tokens, finish_issue,
  rotated_tokens, refresh_found, exchange_refresh_token, session_grant, find_session, code_found,
  exchange_authorization_code, revoke_connector, access_token_ttl, refresh_token_ttl,
}
use odoo_mcp.App.Tokens.Revoked.{revoke_connector_lem}
use odoo_mcp.App.Tokens.Rotation.{exchange_refresh_token_once}
use odoo_mcp.App.Tokens.Codes.{exchange_authorization_code_once}

abbrev grant_on : String → String → Grant
grant_on id connector = record {
  id = id;
  connector_id = connector;
  tenant_id = "t";
  client_id = "c";
  resource = "mcp";
  scopes = "read" ∷ [];
  is_active = true;
}

abbrev connection_of : String → ErpConnection
connection_of id = record { id = id; tenant_id = "t"; status = active }

abbrev service : AuthDb
service = record {
  sessions =
      record {
        state_hash = "s";
        client_id = "c";
        connector_id = some "k";
        code_hash = some "h";
        is_authorized = true;
      }
      ∷ [];
  tokens =
      token_of "r0" "g" refresh ("read" ∷ []) 100 ∷ token_of "x0" "f" access ("read" ∷ []) 100 ∷ [];
  grants = grant_on "g" "k" ∷ grant_on "f" "l" ∷ [];
  connections = connection_of "k" ∷ connection_of "l" ∷ [];
}

abbrev first_values : Fresh
first_values = record { access_hash = "a1"; refresh_hash = "r1" }

abbrev second_values : Fresh
second_values = record { access_hash = "a2"; refresh_hash = "r2" }

abbrev refreshed : AuthDb
refreshed = record service {
  tokens =
      record (token_of "r0" "g" refresh ("read" ∷ []) 100) { rotated_at = some 10 }
      ∷ token_of "x0" "f" access ("read" ∷ []) 100
      ∷ token_of "a1" "g" access ("read" ∷ []) 3610
      ∷ token_of "r1" "g" refresh ("read" ∷ []) 2592010
      ∷ [];
}

refreshed_run :
    exchange_refresh_token first_values "c" "r0" ("read" ∷ []) [] 10 service
    ≡ (issued ("read" ∷ []), refreshed)
unfolding exchange_refresh_token refresh_found finish_issue issue_tokens breaks_invariant
    rotated_tokens token_row select_token join_grant access_token_ttl refresh_token_ttl
refreshed_run = refl

exchange_refresh_token_once_example : token_row refreshed "r0" refresh (some "c") 11 ≡ none
exchange_refresh_token_once_example =
    exchange_refresh_token_once first_values "c" "r0" ("read" ∷ []) [] ("read" ∷ []) 10 service
      refreshed refresh (some "c") 11 refreshed_run

abbrev consumed : AuthDb
consumed = record service {
  sessions =
      record {
        state_hash = "s";
        client_id = "c";
        connector_id = some "k";
        code_hash = some "h";
        is_authorized = false;
      }
      ∷ [];
  tokens =
      token_of "r0" "g" refresh ("read" ∷ []) 100
      ∷ token_of "x0" "f" access ("read" ∷ []) 100
      ∷ token_of "a1" "g" access ("read" ∷ []) 3610
      ∷ token_of "r1" "g" refresh ("read" ∷ []) 2592010
      ∷ [];
}

consumed_run :
    exchange_authorization_code first_values "c" "h" ("read" ∷ []) 10 service
    ≡ (issued ("read" ∷ []), consumed)
unfolding exchange_authorization_code code_found finish_issue issue_tokens breaks_invariant
    find_session session_grant access_token_ttl refresh_token_ttl
consumed_run = refl

exchange_authorization_code_once_example :
    exchange_authorization_code second_values "c" "h" ("read" ∷ []) 11 consumed
    ≡ (invalid_grant, consumed)
exchange_authorization_code_once_example =
    exchange_authorization_code_once first_values second_values "c" "c" "h" "s" ("read" ∷ [])
      ("read" ∷ []) ("read" ∷ []) 10 11 service consumed ((λ e. refl), tt) consumed_run

-- The token of another connector, which is found after the revocation.
abbrev left_over : Joined
left_over = record { token = token_of "x0" "f" access ("read" ∷ []) 100; grant = grant_on "f" "l" }

left_over_found :
    token_row (revoke_connector "k" 20 service) "x0" access (some "c") 30 ≡ some left_over
unfolding token_row revoke_connector select_token join_grant
left_over_found = refl

revoke_connector_lem_example : str_eq "l" "k" ≡ false
revoke_connector_lem_example =
    revoke_connector_lem "k" 20 service "x0" access (some "c") 30 left_over left_over_found
