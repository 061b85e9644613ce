-- ===== src/Netx/Examples.antt =====
-- A resolver that knows two hosts.
use altclaw.Common.{
  ℕ, Option, none, some, [], ◌∷◌, ◌++◌, Bytes, codes, text_eq, has_prefix, index, ◌≡◌, ◌↔◌, refl,
  if◌then◌else◌, last_index, take, drop, ◌+◌,
}
use altclaw.Netx.{
  Net, Rules, dialed, refused, private_network, host_and_port, safe_dialer, url_host, validate_url,
}
use altclaw.Netx.Guard.{Permits, safe_dialer_iff, validate_url-safe_dialer}

-- Splits at the last colon.
abbrev split : Bytes → Option (Bytes × Bytes)
split addr = at_colon (last_index addr (codes ":"))
  where
    at_colon : Option ℕ → Option (Bytes × Bytes)
    at_colon none = none
    at_colon (some i) = some (take i addr, drop (i + 1) addr)

abbrev pub resolver : Net
resolver = record {
  Ip = Bytes;
  is_loopback = λ ip. has_prefix ip (codes "127.");
  is_private = λ ip. has_prefix ip (codes "10.");
  is_link_local = λ ip. has_prefix ip (codes "169.254.");
  ip_string = λ ip. ip;
  lookup_ip = λ host.
      if text_eq host (codes "localhost")
      then some (codes "127.0.0.1" ∷ [])
      else if text_eq host (codes "a.org")
      then some (codes "9.9.9.9" ∷ [])
      else none;
  split_host_port = split;
  join_host_port = λ host port. host ++ (codes ":" ++ port);
  to_lower = λ s. s;
  trim_space = λ s. s;
}

abbrev pub rules : Rules
rules = record { loopback_ports = codes "9090" ∷ []; hosts = none }

dialer_tests :
    (safe_dialer resolver rules (codes "a.org:443") ≡ dialed (codes "9.9.9.9:443"))
    × (safe_dialer resolver rules (codes "localhost:80") ≡ refused private_network)
    × (safe_dialer resolver rules (codes "localhost:9090") ≡ dialed (codes "127.0.0.1:9090"))
    × (validate_url resolver rules (codes "https://a.org/x?y") ≡ none)
    × (validate_url resolver rules (codes "http://localhost:9090/") ≡ some private_network)
unfolding safe_dialer validate_url text_eq has_prefix index last_index
dialer_tests = (refl, refl, refl, refl, refl)

safe_dialer_iff_example :
    let (host, port) = host_and_port resolver (codes "a.org:443") in
    (safe_dialer resolver rules (codes "a.org:443") ≡ dialed (codes "9.9.9.9:443"))
    ↔ Permits resolver rules host port (codes "9.9.9.9:443")
safe_dialer_iff_example = safe_dialer_iff resolver rules (codes "a.org:443") (codes "9.9.9.9:443")

validate_url-safe_dialer_example :
    (target : Bytes) × (safe_dialer resolver rules (codes "a.org:443") ≡ dialed target)
unfolding host_and_port url_host text_eq has_prefix index last_index
validate_url-safe_dialer_example =
    validate_url-safe_dialer resolver rules (codes "https://a.org/x?y") (codes "a.org:443") refl
      dialer_tests.3
