-- ===== src/Web/Examples.antt =====
-- Logins, sessions and the public directory at concrete inputs.
use altclaw.Common.{
  ℕ, ◌*◌, ◌≤◌, ◌<◌, ◌^◌, if◌then◌else◌, Bool, true, false, Option, none, some, List, [], ◌∷◌, ◌++◌,
  Bytes, codes, text_eq, has_prefix, contains, any, index, lookup, insert, remove, arith, ◌≡◌, ◌↔◌,
  refl,
}
use altclaw.IpFilter
use altclaw.IpFilter.{Addresses, match_entries, match_ip_whitelist, ip_whitelist, client_ip}
use altclaw.Paths
use altclaw.Paths.{
  Components, Resolved, resolved, absolute, clean_onto, split, rel_text, real_workspace,
}
use altclaw.ServerJs.Cache.{new_route_cache, resolve_route}
use altclaw.Web.{
  Request, World, allowed, Server, logged_in, refused, pos, negsuc, Outside, Event, calls,
  auto_logs_in, passes, second, day, new_server, auth_middleware,
}
use altclaw.Web.Login.{hub_login, run_all}
use altclaw.Web.Sessions.{history, is_passed, auth_middleware-has_live}
use altclaw.Web.Passwords.{logins, logins-once}
use altclaw.Web.Hub.{is_login, IsInt64, IsSigned, hub_login_iff}
use altclaw.Web.Public.{Disk, Site, file, not_found, public_of, path_text, serve_public}
use altclaw.Web.Served.{served, IsAdmitted, IsInPublic, serve_public-IsBelow}
use altclaw.Web.Slash.{serve_public-slash}

abbrev addresses : Addresses
addresses = record {
  Ip = Bytes;
  parse_ip = some;
  parse_cidr = λ s. none;
  split_host_port = λ s. if_port (index s (codes ":")) s;
  trim_space = λ s. s;
}
  where
    if_port : Option ℕ → Bytes → Option (Bytes × Bytes)
    if_port none s = none
    if_port (some i) s = some (codes "127.0.0.1", codes "80")

-- The n-th draw is the text of one byte n.
abbrev outside : Outside
outside = record {
  net = addresses;
  random = λ n. n ∷ [];
  parse_int = λ s. if text_eq s (codes "1000") then some (pos 1000) else none;
  hmac = λ key s. key ++ s;
  is_credential = λ s. true;
  gui_mode = false;
}

abbrev local_client : IpFilter.Request
local_client = record { x_client_ip = []; x_forwarded_for = []; remote_addr = codes "127.0.0.1:80" }

abbrev request : Bytes → Option Bytes → Request
request path cookie = record {
  path = path;
  is_delete = false;
  from = local_client;
  host = codes "localhost";
  forwarded_host = [];
  cookie = cookie;
}

abbrev world : Bytes → World
world pw = record {
  passkeys = none;
  rate = allowed;
  body = some pw;
  begins = none;
  has_webauthn = true;
  query_challenge = [];
  finishes = λ n. false;
}

-- A login with the first password, a day, the same password again, and the next one.
abbrev day_one : List Event
day_one =
    calls (request (codes "/api/auth") none) (world (0 ∷ []))
    ∷ passes day
    ∷ auto_logs_in (request (codes "/auth/auto-login") none) (0 ∷ [])
    ∷ auto_logs_in (request (codes "/auth/auto-login") none) (1 ∷ [])
    ∷ []

auth_middleware-has_live_example :
    is_passed
      (auth_middleware outside
        (request (codes "/api/chat") (some (2 ∷ [])))
        (run_all outside day_one (new_server outside 7))).0
    ≡ true
unfolding history run_all auth_middleware text_eq lookup insert index has_prefix
auth_middleware-has_live_example =
    auth_middleware-has_live outside 7 day_one (request (codes "/api/chat") (some (2 ∷ [])))

logins-once_example : logins outside (0 ∷ []) day_one (new_server outside 7) ≤ 1
unfolding run_all text_eq insert index has_prefix
logins-once_example = logins-once outside 7 (0 ∷ []) day_one (λ i j _ _ e. ground (arith, e))

-- Only the first of the two.
one_login : logins outside (0 ∷ []) day_one (new_server outside 7) ≡ 1
unfolding logins run_all text_eq lookup insert index has_prefix
one_login = refl

-- 31 days after the login the session is refused.
expired :
    (auth_middleware outside
      (request (codes "/api/chat") (some (2 ∷ [])))
      (run_all outside (day_one ++ passes (31 * day) ∷ []) (new_server outside 7))).0
    ≡ refused 401
unfolding run_all auth_middleware text_eq lookup insert remove index has_prefix
expired = refl

-- The second 1010 after 1970.
abbrev at_1010 : Server
at_1010 = new_server outside (1010 * second)

range : IsInt64 outside.parse_int
range ts n e = by_text (text_eq ts (codes "1000")) e
  where
    by_text : (b : Bool) → (if b then some (pos 1000) else none) ≡ some (negsuc n) → n < 2 ^ 63
    by_text true k = absurd (cc)
    by_text false k = absurd (cc)

hub_login_iff_example :
    (is_login (hub_login outside (codes "key1000:1000") (codes "key") at_1010).0 ≡ true)
    ↔ IsSigned outside (codes "key1000:1000") (codes "key") 1010
hub_login_iff_example =
    hub_login_iff outside (codes "key1000:1000") (codes "key") at_1010 range (omega arith)
      (omega arith)

hub_opens :
    (hub_login outside (codes "key1000:1000") (codes "key") at_1010).0 ≡ logged_in (1 ∷ []) 2592000
unfolding hub_login index has_prefix text_eq
hub_opens = refl

-- The public directory is /w/p, where a.server.js and b.server.js lie; x leads to /etc.
abbrev disk : Disk
disk = record {
  net = addresses;
  files = record {
    eval_symlinks = λ p. if_linked (any (text_eq (codes "x")) p) p;
    lines = λ p. none;
    matches = λ p q. false;
    trim_space = λ s. s;
    to_lower = λ s. s;
  };
  scripts = record {
    file_exists = text_eq (codes "/w/p/b.server.js");
    dir_exists = λ p. false;
    read_dir = λ p. [];
    join = λ dir name. dir ++ (codes "/" ++ name);
    sort = λ cs. cs;
  };
  stat = any (text_eq (codes "a.server.js"));
}
  where
    if_linked : Bool → Components → Resolved
    if_linked true p = resolved (codes "etc" ∷ [])
    if_linked false p = resolved p

abbrev site : Site
site = record {
  public_dir = codes "p";
  workspace = codes "w" ∷ [];
  cfg_list = some (codes "127.0.0.1" ∷ []);
  ws_list = none;
  has_scripts = true;
}

b_runs :
    served (serve_public disk 0 0 site local_client (codes "/b") new_route_cache).0
    ≡ some (codes "w" ∷ codes "p" ∷ codes "b.server.js" ∷ [])
unfolding serve_public resolve_route lookup Paths.join match_entries text_eq index has_prefix
    contains match_ip_whitelist ip_whitelist client_ip clean_onto split absolute rel_text
    real_workspace
b_runs = refl

serve_public-IsBelow_example :
    IsAdmitted disk site local_client
    × IsInPublic disk
        (resolve_route disk.scripts 0 0 (path_text (public_of site)) (codes "b") new_route_cache).0
        (public_of site)
        (codes "b")
        (codes "w" ∷ codes "p" ∷ codes "b.server.js" ∷ [])
unfolding has_prefix
serve_public-IsBelow_example =
    serve_public-IsBelow disk 0 0 site local_client (codes "/b") new_route_cache
      (codes "w" ∷ codes "p" ∷ codes "b.server.js" ∷ []) b_runs

serve_public-slash_example :
    serve_public disk 0 0 site local_client (codes "/a.server.js/") new_route_cache
    ≡ (file (codes "w" ∷ codes "p" ∷ codes "a.server.js" ∷ []), new_route_cache)
unfolding match_entries text_eq index has_prefix contains match_ip_whitelist ip_whitelist client_ip
    clean_onto split absolute rel_text real_workspace
serve_public-slash_example =
    serve_public-slash disk 0 0 site local_client (codes "a.server.js") new_route_cache refl refl
      refl refl

-- Without the slash it is hidden.
script_hidden :
    serve_public disk 0 0 site local_client (codes "/a.server.js") new_route_cache
    ≡ (not_found, new_route_cache)
unfolding serve_public match_entries text_eq index has_prefix contains match_ip_whitelist
    ip_whitelist client_ip
script_hidden = refl

-- The link leads out of the directory.
link_refused : (serve_public disk 0 0 site local_client (codes "/x") new_route_cache).0 ≡ not_found
unfolding serve_public resolve_route lookup Paths.join match_entries text_eq index has_prefix
    contains match_ip_whitelist ip_whitelist client_ip clean_onto split absolute rel_text
    real_workspace
link_refused = refl
