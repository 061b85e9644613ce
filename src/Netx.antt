-- ===== src/Netx.antt =====
-- internal/netx/dialer.go: the check of outgoing connections against requests to the local network.
pub mod Guard
pub mod Examples
use altclaw.Common.{
  ℕ, ◌+◌, Bool, true, false, Option, none, some, List, [], ◌∷◌, ◌&&◌, ◌||◌, not, Bytes, codes,
  if◌then◌else◌, text_eq, any, index, take, drop, ◌==◌,
}

-- What the package takes from Go's `net`, `net/netip` and `strings`.
pub record Net : Type 1 where
  pub Ip : Type 0
  pub is_loopback : Ip → Bool
  pub is_private : Ip → Bool
  pub is_link_local : Ip → Bool
  pub ip_string : Ip → Bytes
  pub lookup_ip : Bytes → Option (List Ip)
  pub split_host_port : Bytes → Option (Bytes × Bytes)
  pub join_host_port : Bytes → Bytes → Bytes
  pub to_lower : Bytes → Bytes
  pub trim_space : Bytes → Bytes

-- The package variables: the ports of `allowedLoopbackPorts`, and `allowedHosts` or nil.
pub record Rules : Type 0 where
  pub loopback_ports : List Bytes
  pub hosts : Option (List Bytes)

pub data DialError : Type 0 where
  empty_host : DialError
  host_not_allowed : Bytes → DialError
  resolution_failed : DialError
  no_addresses : DialError
  private_network : DialError
  metadata_service : DialError

pub data Dial : Type 0 where
  dialed : Bytes → Dial
  refused : DialError → Dial

abbrev pub metadata_ip : Bytes
metadata_ip = codes "169.254.169.254"

abbrev pub is_empty : Bytes → Bool
is_empty [] = true
is_empty (_ ∷ _) = false

pub allow_loopback_port : Bytes → Rules → Rules
allow_loopback_port port r = record r { loopback_ports = port ∷ r.loopback_ports }

module _ (net : Net) where
  open net use {
    Ip, is_loopback, is_private, is_link_local, ip_string, lookup_ip, split_host_port,
    join_host_port, to_lower, trim_space,
  }

  -- Entries are trimmed and lowered, and blank ones left out.
  normal_hosts : List Bytes → List Bytes
  normal_hosts [] = []
  normal_hosts (h ∷ hs) =
      let host = trim_space (to_lower h) in
      if is_empty host then normal_hosts hs else host ∷ normal_hosts hs

  pub set_allowed_hosts : List Bytes → Rules → Rules
  unfolding normal_hosts
  set_allowed_hosts [] r = record r { hosts = none }
  set_allowed_hosts (h ∷ hs) r = record r { hosts = some (normal_hosts (h ∷ hs)) }

  unfoldable pub is_host_allowed : Rules → Bytes → Bool
  is_host_allowed r host = by_hosts r.hosts
    where
      by_hosts : Option (List Bytes) → Bool
      by_hosts none = true
      by_hosts (some hs) = any (text_eq (to_lower host)) hs

  abbrev pub is_local : Ip → Bool
  is_local ip = is_loopback ip || is_private ip || is_link_local ip

  -- `SafeDialer` after the lookup: only the first address counts.
  pub check_dial : Rules → Bytes → List Ip → Dial
  check_dial r port [] = refused no_addresses
  check_dial r port (ip ∷ _) =
      if is_local ip && (not (is_loopback ip) || not (any (text_eq port) r.loopback_ports))
      then refused private_network
      else if text_eq (ip_string ip) metadata_ip
      then refused metadata_service
      else dialed (join_host_port (ip_string ip) (if is_empty port then codes "80" else port))

  pub dial_host : Rules → Bytes → Bytes → Dial
  unfolding is_host_allowed check_dial
  dial_host r host port =
      if not (is_host_allowed r host)
      then refused (host_not_allowed host)
      else resolved (lookup_ip host)
    where
      resolved : Option (List Ip) → Dial
      resolved none = refused resolution_failed
      resolved (some ips) = check_dial r port ips

  -- A text that does not split is a host without a port.
  unfoldable pub host_and_port : Bytes → Bytes × Bytes
  host_and_port addr = elim (split_host_port addr) [ none ↦ (addr, []) | some hp ↦ hp ]

  pub safe_dialer : Rules → Bytes → Dial
  unfolding host_and_port dial_host
  safe_dialer r addr = let (host, port) = host_and_port addr in dial_host r host port

  -- The host of a URL: what stands after "://" and before a path, query or fragment, without a port.
  unfoldable strip_scheme : Bytes → Bytes
  strip_scheme url = elim (index url (codes "://")) [ none ↦ url | some i ↦ drop (i + 3) url ]

  unfoldable up_to_path : Bytes → Bytes
  up_to_path [] = []
  up_to_path (c ∷ cs) = if c == b'/' || c == b'?' || c == b'#' then [] else c ∷ up_to_path cs

  unfoldable pub url_host : Bytes → Bytes
  unfolding strip_scheme up_to_path host_and_port
  url_host url = (host_and_port (up_to_path (strip_scheme url))).0

  unfoldable pub check_url : List Ip → Option DialError
  check_url [] = some no_addresses
  check_url (ip ∷ _) =
      if is_local ip
      then some private_network
      else if text_eq (ip_string ip) metadata_ip
      then some metadata_service
      else none

  unfoldable pub check_host : Rules → Bytes → Option DialError
  unfolding is_host_allowed check_url
  check_host r host =
      if is_empty host
      then some empty_host
      else if not (is_host_allowed r host)
      then some (host_not_allowed host)
      else resolved (lookup_ip host)
    where
      resolved : Option (List Ip) → Option DialError
      resolved none = some resolution_failed
      resolved (some ips) = check_url ips

  -- `none` is a nil error.
  unfoldable pub validate_url : Rules → Bytes → Option DialError
  unfolding url_host check_host
  validate_url r url = check_host r (url_host url)
