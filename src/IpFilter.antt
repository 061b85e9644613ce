-- ===== src/IpFilter.antt =====
-- internal/util/ip.go and the lists of internal/config/store_settings.go: which clients may connect.
pub mod Access
pub mod Examples
use altclaw.Common.{
  ℕ, Bool, true, false, Option, none, some, List, [], ◌∷◌, ◌++◌, ◌&&◌, ◌||◌, Bytes, codes,
  if◌then◌else◌, text_eq, any, contains, index, take, ltb,
}

-- What the package takes from Go's `net` and `strings`.
pub record Addresses : Type 1 where
  pub Ip : Type 0
  pub parse_ip : Bytes → Option Ip
  pub parse_cidr : Bytes → Option (Ip → Bool)
  pub split_host_port : Bytes → Option (Bytes × Bytes)
  pub trim_space : Bytes → Bytes

-- The headers and the address that `ClientIP` reads.
pub record Request : Type 0 where
  pub x_client_ip : Bytes
  pub x_forwarded_for : Bytes
  pub remote_addr : Bytes

abbrev pub is_blank : Bytes → Bool
is_blank [] = true
is_blank (_ ∷ _) = false

abbrev pub is_nil : List Bytes → Bool
is_nil [] = true
is_nil (_ ∷ _) = false

-- The first of the proxies, if a comma follows it.
abbrev first_hop : Bytes → Option ℕ → Bytes
first_hop fwd none = fwd
first_hop fwd (some i) = if ltb 0 i then take i fwd else fwd

abbrev remote_host : Bytes → Option (Bytes × Bytes) → Bytes
remote_host addr none = addr
remote_host addr (some (host, port)) = host

module _ (net : Addresses) where
  open net use {Ip, parse_ip, parse_cidr, split_host_port, trim_space}

  unfoldable pub client_ip : Request → Bytes
  client_ip r =
      if is_blank r.x_client_ip
      then (if is_blank r.x_forwarded_for
          then remote_host r.remote_addr (split_host_port r.remote_addr)
          else trim_space (first_hop r.x_forwarded_for (index r.x_forwarded_for (codes ","))))
      else trim_space r.x_client_ip

  abbrev in_cidr : Option (Ip → Bool) → Option Ip → Bool
  in_cidr none ip = false
  in_cidr (some cidr) none = false
  in_cidr (some cidr) (some ip) = cidr ip

  -- Whether an entry, without the spaces around it, names the client.
  unfoldable pub names : Bytes → Bytes → Bool
  names client entry =
      if is_blank entry
      then false
      else if contains entry (codes "/")
      then in_cidr (parse_cidr entry) (parse_ip client)
      else text_eq entry client

  unfoldable pub match_entries : Bytes → List Bytes → Bool
  unfolding names
  match_entries client [] = false
  match_entries client (e ∷ es) = names client (trim_space e) || match_entries client es

  -- An empty list allows every client.
  unfoldable pub match_ip_whitelist : Bytes → List Bytes → Bool
  unfolding match_entries
  match_ip_whitelist client [] = true
  match_ip_whitelist client (e ∷ es) = match_entries client (e ∷ es)

-- The addresses that were not seen yet join the result.
unfoldable pub add_unseen : List Bytes → List Bytes → List Bytes
add_unseen result [] = result
add_unseen result (ip ∷ ips) =
    add_unseen (if any (text_eq ip) result then result else result ++ ip ∷ []) ips

abbrev pub or_nil : Option (List Bytes) → List Bytes
or_nil none = []
or_nil (some ips) = ips

-- The user's list and the workspace's, if they are there.
unfoldable pub ip_whitelist : Option (List Bytes) → Option (List Bytes) → List Bytes
unfolding add_unseen
ip_whitelist cfg ws = add_unseen (add_unseen [] (or_nil cfg)) (or_nil ws)
