-- ===== src/IpFilter/Examples.antt =====
-- Examples of the lists of clients.
use altclaw.Common.{true, none, some, [], ◌∷◌, Bytes, codes, has_prefix, text_eq, contains, ◌≡◌}
use altclaw.IpFilter.{Addresses, match_ip_whitelist, match_entries, ip_whitelist}
use altclaw.IpFilter.Access.{match_ip_whitelist-ip_whitelist}

-- A network is its first byte.
abbrev addresses : Addresses
addresses = record {
  Ip = Bytes;
  parse_ip = some;
  parse_cidr = λ s. some (λ ip. has_prefix ip (codes "10."));
  split_host_port = λ s. none;
  trim_space = λ s. s;
}

named_by_network :
    match_ip_whitelist addresses (codes "10.1.2.3") (
      ip_whitelist (some (codes "1.2.3.4" ∷ [])) (some (codes "10.0.0.0/8" ∷ codes "1.2.3.4" ∷ [])))
    ≡ true
unfolding match_entries text_eq contains has_prefix
named_by_network =
    match_ip_whitelist-ip_whitelist addresses (codes "10.1.2.3") (some (codes "1.2.3.4" ∷ []))
      (some (codes "10.0.0.0/8" ∷ codes "1.2.3.4" ∷ []))
