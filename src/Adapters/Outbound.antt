-- ===== src/Adapters/Outbound.antt =====
-- src/odoo_mcp/adapters/odoo/outbound_policy.py: which addresses are connected to, and how much of a
-- response is read.
pub mod Public
pub mod Bounds
use odoo_mcp.Prelude.{
  ℕ, ◌+◌, ◌*◌, String, Bool, true, false, ◌&&◌, ◌||◌, not, Option, none, some, List, [], ◌∷◌,
  length, str_eq, ltb, ◌==◌, if◌then◌else◌,
}
use odoo_mcp.Errors.{OdooMcpError, odoo_api_error}
use odoo_mcp.Workflows.Values.{Reply, answered, refused, crashed, ◌>>=◌, for_each}

-- `_safe_network_error`
abbrev pub safe_network_error : OdooMcpError
safe_network_error = record {
  code = odoo_api_error;
  safe_message = "The destination is not permitted for Shared Hosted connections.";
  remediation_hint = "Use a public HTTPS Odoo endpoint and retry.";
}

-- What `ipaddress` says of an address, and its text.
pub record Address : Type 0 where
  pub is_global : Bool
  pub is_multicast : Bool
  pub is_unspecified : Bool
  pub is_loopback : Bool
  pub is_link_local : Bool
  pub is_private : Bool
  pub is_reserved : Bool
  pub str : String

-- An address that `ipaddress.ip_address` returns, with its `ipv4_mapped`.
pub data IpAddress : Type 0 where
  ipv4 : Address → IpAddress
  ipv6 : Address → Option Address → IpAddress

-- What `urllib.parse.urlsplit` returns.
pub record SplitUrl : Type 0 where
  pub scheme : String
  pub hostname : Option String
  pub port : Option ℕ
  pub username : Option String
  pub password : Option String
  pub query : String
  pub fragment : String

-- Python's library and the resolver: `ip_address` and `urlsplit` with the `port` of its result are
-- `none` where they raise ValueError.
pub record Network : Type 0 where
  pub ip_address : String → Option IpAddress
  pub urlsplit : String → Option SplitUrl
  pub resolver : String → ℕ → Reply (List String)

-- `address.ipv4_mapped` where there is one.
abbrev pub unmapped : IpAddress → Address
unmapped (ipv4 a) = a
unmapped (ipv6 a none) = a
unmapped (ipv6 a (some b)) = b

abbrev pub own_address : IpAddress → Address
own_address (ipv4 a) = a
own_address (ipv6 a mapped) = a

abbrev pub is_forbidden : Address → Bool
is_forbidden a =
    not a.is_global
    || (a.is_multicast
        || (a.is_unspecified
            || (a.is_loopback || (a.is_link_local || (a.is_private || a.is_reserved)))))

abbrev pub checked_address : Option IpAddress → Reply String
checked_address none = refused safe_network_error
checked_address (some ip) =
    if is_forbidden (unmapped ip) then refused safe_network_error else answered (unmapped ip).str

-- `_public_address`
unfoldable pub public_address : Network → String → Reply String
public_address n value = checked_address (n.ip_address value)

abbrev has_value : Option String → Bool
has_value none = false
has_value (some s) = true

abbrev port_or_443 : Option ℕ → ℕ
port_or_443 none = 443
port_or_443 (some p) = if p == 0 then 443 else p

abbrev host_of : Option String → Reply String
host_of none = refused safe_network_error
host_of (some h) = if str_eq h "" then refused safe_network_error else answered h

abbrev parsed_url : Option SplitUrl → Reply (String × ℕ)
parsed_url none = refused safe_network_error
parsed_url (some u) =
    if not (str_eq u.scheme "https")
      || (has_value u.username
          || (has_value u.password || (not (str_eq u.query "") || not (str_eq u.fragment ""))))
    then refused safe_network_error
    else (host_of u.hostname >>= λ host. answered (host, port_or_443 u.port))

-- `SharedOutboundPolicy.parse_url`
unfoldable pub parse_url : Network → String → Reply (String × ℕ)
parse_url n raw_url = parsed_url (n.urlsplit raw_url)

abbrev answers_from : Network → String → ℕ → Option IpAddress → Reply (List String)
answers_from n host port none = n.resolver host port
answers_from n host port (some ip) = answered ((own_address ip).str ∷ [])

-- The addresses of a host, before they are looked at.
unfoldable pub answers_of : Network → String → ℕ → Reply (List String)
answers_of n host port = answers_from n host port (n.ip_address host)

abbrev pub checked_answers : Network → ℕ → List String → Reply (List String)
checked_answers n max_addresses answers =
    if length answers == 0 || ltb max_addresses (length answers)
    then refused safe_network_error
    else for_each (public_address n) answers

-- `SharedOutboundPolicy.resolve_public`
unfoldable pub resolve_public : Network → ℕ → String → ℕ → Reply (List String)
resolve_public n max_addresses host port =
    answers_of n host port >>= checked_answers n max_addresses

-- `SharedOutboundPolicy.validate_url`
unfoldable pub validate_url : Network → ℕ → String → Reply (List String)
validate_url n max_addresses raw_url =
    parse_url n raw_url >>= λ (host, port). resolve_public n max_addresses host port

module _ {S : Type 0} where
  abbrev after_attempt : String → Option S → List String × Reply S → List String × Reply S
  after_attempt address none rest = (address ∷ rest.0, rest.1)
  after_attempt address (some stream) rest = (address ∷ [], answered stream)

  -- The loop of `connect_tcp`: the addresses tried, and the stream. The backend is `none` where it
  -- raises.
  unfoldable pub try_addresses : (String → ℕ → Option S) → ℕ → List String → List String × Reply S
  try_addresses backend port [] = ([], refused safe_network_error)
  try_addresses backend port (a ∷ rest) =
      after_attempt a (backend a port) (try_addresses backend port rest)

  abbrev pub connect_to : (String → ℕ → Option S) → ℕ → Reply (List String) → List String × Reply S
  connect_to backend port (answered addresses) = try_addresses backend port addresses
  connect_to backend port (refused e) = ([], refused e)
  connect_to backend port crashed = ([], crashed)

  -- `_PinnedNetworkBackend.connect_tcp`
  unfoldable pub connect_tcp :
      Network → ℕ → (String → ℕ → Option S) → String → ℕ → List String × Reply S
  connect_tcp n max_addresses backend host port =
      connect_to backend port (resolve_public n max_addresses host port)

-- `MAX_RESPONSE_BYTES`
unfoldable pub max_response_bytes : ℕ
max_response_bytes = 10 * 1024 * 1024

module _ {C : Type 0} (len : C → ℕ) where
  -- `_BoundedStream.__aiter__`: the chunks that are yielded, and whether the end is reached.
  unfoldable pub bounded_stream : ℕ → ℕ → List C → List C × Bool
  bounded_stream limit seen [] = ([], true)
  bounded_stream limit seen (c ∷ chunks) =
      let rest = bounded_stream limit (seen + len c) chunks in
      if ltb limit (seen + len c) then ([], false) else (c ∷ rest.0, rest.1)
