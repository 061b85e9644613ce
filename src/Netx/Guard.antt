-- ===== src/Netx/Guard.antt =====
-- When a connection is dialed, and how the two checks agree.
use altclaw.Common.{
  true, false, Option, none, some, List, [], ◌∷◌, Bytes, codes, if◌then◌else◌, text_eq, text_eq_iff,
  any, ◌≡◌, ◌≢◌, ◌↔◌, ◌⊎◌, arith, refl, inl,
}
use altclaw.Netx.{
  Net, Rules, dialed, is_empty, is_local, metadata_ip, is_host_allowed, check_dial, dial_host,
  host_and_port, safe_dialer, url_host, check_host, validate_url,
}

module _ (net : Net) (r : Rules) where
  open net use {
    Ip, is_loopback, is_private, is_link_local, ip_string, lookup_ip, split_host_port,
    join_host_port, to_lower,
  }

  -- An address that is neither loopback nor private nor link-local.
  abbrev pub IsPublic : Ip → Type 0
  IsPublic ip = (is_loopback ip ≡ false) × (is_private ip ≡ false) × (is_link_local ip ≡ false)

  is_local-IsPublic : (ip : Ip) → is_local net ip ≡ false → IsPublic ip
  is_local-IsPublic ip h = ground arith

  -- The first address of the host may be reached at the port.
  abbrev pub IsReachable : Bytes → Ip → Type 0
  IsReachable port ip =
      (IsPublic ip ⊎ ((is_loopback ip ≡ true) × (any (text_eq port) r.loopback_ports ≡ true)))
      × (ip_string ip ≢ metadata_ip)

  abbrev pub first : Option (List Ip) → Option Ip
  first none = none
  first (some []) = none
  first (some (ip ∷ _)) = some ip

  pub record Permits (host port target : Bytes) : Type 0 where
    pub allowed : is_host_allowed net r host ≡ true
    pub ip : Ip
    pub resolved : first (lookup_ip host) ≡ some ip
    pub reachable : IsReachable port ip
    pub checked_ip :
        target ≡ join_host_port (ip_string ip) (if is_empty port then codes "80" else port)

  check_dial-dialed :
      (port target : Bytes) (ips : List Ip)
      → check_dial net r port ips ≡ dialed target
      → (ip : Ip) × (first (some ips) ≡ some ip)
        × IsReachable port ip
        × (target ≡ join_host_port (ip_string ip) (if is_empty port then codes "80" else port))
  unfolding check_dial
  check_dial-dialed port target [] e = cc
  check_dial-dialed port target (ip ∷ ips) e =
      (ip, refl, ground (arith, text_eq_iff (ip_string ip) metadata_ip), ground arith)

  dialed_of_IsReachable :
      (port : Bytes) (ip : Ip) (ips : List Ip)
      → IsReachable port ip
      → check_dial net r port (ip ∷ ips)
        ≡ dialed (join_host_port (ip_string ip) (if is_empty port then codes "80" else port))
  unfolding check_dial
  dialed_of_IsReachable port ip ips h = ground (arith, text_eq_iff (ip_string ip) metadata_ip)

  Permits-of_dialed :
      (host port target : Bytes) (found : Option (List Ip))
      → lookup_ip host ≡ found
      → dial_host net r host port ≡ dialed target
      → Permits host port target
  unfolding dial_host
  Permits-of_dialed host port target none l e = absurd (ground arith)
  Permits-of_dialed host port target (some ips) l e =
      let (ip, f, reachable, target_eq) = check_dial-dialed port target ips (ground arith) in
      record {
        allowed = ground arith;
        ip = ip;
        resolved = rw l f;
        reachable = reachable;
        checked_ip = target_eq;
      }

  dialed_of_found :
      (host port target : Bytes) (found : Option (List Ip))
      → lookup_ip host ≡ found
      → Permits host port target
      → dial_host net r host port ≡ dialed target
  unfolding dial_host
  dialed_of_found host port target none l p = absurd (ground arith)
  dialed_of_found host port target (some []) l p = absurd (ground arith)
  dialed_of_found host port target (some (i ∷ ips)) l p =
      let there = dialed_of_IsReachable port p.ip ips p.reachable in
      let same : i ≡ p.ip = cc (p.resolved, l) in ground (arith, there)

  -- A connection is dialed exactly if the host passes the list of hosts (there is none, or the host is
  -- on it), and also, listed or not, the first address that it resolves to is not the metadata
  -- service's, and is neither loopback nor private nor link-local, or else a loopback address at one of
  -- the ports for loopback. It goes to that very address, at port 80 if none was given.
  pub safe_dialer_iff :
      (addr target : Bytes)
      → let (host, port) = host_and_port net addr in
        (safe_dialer net r addr ≡ dialed target) ↔ Permits host port target
  unfolding safe_dialer
  safe_dialer_iff addr target =
      let (host, port) = host_and_port net addr in
      (
        Permits-of_dialed host port target (lookup_ip host) refl,
        dialed_of_found host port target (lookup_ip host) refl,
      )

  found_of_check_host :
      (host : Bytes) (found : Option (List Ip))
      → lookup_ip host ≡ found
      → check_host net r host ≡ none
      → (is_host_allowed net r host ≡ true)
        × (ip : Ip) × (first found ≡ some ip)
        × (is_local net ip ≡ false)
        × (ip_string ip ≢ metadata_ip)
  unfolding check_host
  found_of_check_host host none l e = absurd (ground arith)
  found_of_check_host host (some []) l e = absurd (ground arith)
  found_of_check_host host (some (i ∷ ips)) l e =
      (ground arith, i, refl, ground arith, ground (arith, text_eq_iff (ip_string i) metadata_ip))

  -- A URL that passes `ValidateURL` has a host to which `SafeDialer` connects at every port, as long
  -- as the host resolves to the same addresses.
  pub validate_url-safe_dialer :
      (url addr : Bytes)
      → (host_and_port net addr).0 ≡ url_host net url
      → validate_url net r url ≡ none
      → (target : Bytes) × (safe_dialer net r addr ≡ dialed target)
  unfolding validate_url
  validate_url-safe_dialer url addr same ok =
      let (host, port) = host_and_port net addr in
      let (allowed, ip, resolved, public, other) =
        found_of_check_host (url_host net url) (lookup_ip (url_host net url)) refl ok in
      (
        join_host_port (ip_string ip) (if is_empty port then codes "80" else port),
        (safe_dialer_iff addr _).1 (record {
          allowed = rw same allowed;
          ip = ip;
          resolved = rw same resolved;
          reachable = (inl (is_local-IsPublic ip public), other);
          checked_ip = refl;
        }),
      )
