-- ===== src/Tests/Connections.antt =====
-- Connections to a host with two addresses.
use odoo_mcp.Prelude.{
  ℕ, String, true, false, ◌≡◌, ◌⊎◌, Option, none, some, [], ◌∷◌, All, str_eq, if◌then◌else◌,
}
use odoo_mcp.Workflows.Values.{answered}
use odoo_mcp.Adapters.Outbound.{Address, ipv4, ipv6, Network, connect_tcp, bounded_stream}
use odoo_mcp.Adapters.Outbound.Public.{IsPublic, Resolves, connect_tcp-IsPublic}
use odoo_mcp.Adapters.Outbound.Bounds.{Delivers, bounded_stream-Delivers}

abbrev public_server : Address
public_server = record {
  is_global = true;
  is_multicast = false;
  is_unspecified = false;
  is_loopback = false;
  is_link_local = false;
  is_private = false;
  is_reserved = false;
  str = "203.0.114.7";
}

abbrev internet : Network
internet = record {
  ip_address = λ s.
      if str_eq s "203.0.114.7"
      then some (ipv4 public_server)
      else (if str_eq s "::ffff:203.0.114.7"
          then some (ipv6 public_server (some public_server))
          else none);
  urlsplit = λ s. none;
  resolver = λ host port. answered ("203.0.114.7" ∷ "::ffff:203.0.114.7" ∷ []);
}

abbrev refusing : String → ℕ → Option ℕ
refusing address port = none

connect_tcp-IsPublic_example :
    All (IsPublic internet) (connect_tcp internet 16 refusing "odoo.example" 443).0
    × (((connect_tcp internet 16 refusing "odoo.example" 443).0 ≡ [])
        ⊎ Resolves internet refusing 16 "odoo.example" 443)
connect_tcp-IsPublic_example = connect_tcp-IsPublic internet refusing 16 "odoo.example" 443

bounded_stream-Delivers_example :
    Delivers
      (λ (n : ℕ). n)
      10
      0
      (4 ∷ 5 ∷ 6 ∷ [])
      (bounded_stream (λ (n : ℕ). n) 10 0 (4 ∷ 5 ∷ 6 ∷ []))
bounded_stream-Delivers_example = bounded_stream-Delivers (λ n. n) 10 (4 ∷ 5 ∷ 6 ∷ [])
