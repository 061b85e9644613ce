-- ===== src/Web/Public.antt =====
-- web/server.go: what the public directory serves, up to the calls of `http.ServeFile` and of the engine
-- for server scripts. It calls IpFilter, Paths and ServerJs.
use altclaw.Common.{
  ℕ, Bool, Option, none, some, List, [], ◌∷◌, ◌&&◌, not, Bytes, codes, if◌then◌else◌, drop,
  has_prefix, reverse,
}
use altclaw.IpFilter
use altclaw.IpFilter.{Addresses, is_blank, client_ip, match_ip_whitelist, ip_whitelist}
use altclaw.Paths
use altclaw.Paths.{Components, split, clean_onto, absolute, join, real_workspace, rel_text}
use altclaw.ServerJs
use altclaw.ServerJs.{Params}
use altclaw.ServerJs.Cache.{RouteCache, resolve_route}
use altclaw.Web.{has_suffix}

-- The packages net and os.
pub record Disk : Type 1 where
  pub net : Addresses
  pub files : Paths.Files
  pub scripts : ServerJs.Files
  pub stat : Components → Bool

-- `ws.PublicDir`, `ws.Path`, the lists of addresses of the user and the workspace, and if there is a
-- handler for scripts.
pub record Site : Type 0 where
  pub public_dir : Bytes
  pub workspace : Components
  pub cfg_list : Option (List Bytes)
  pub ws_list : Option (List Bytes)
  pub has_scripts : Bool

pub data Response : Type 0 where
  to_app : Response
  forbidden : Response
  not_found : Response
  runs : Components → Params → Response
  file : Components → Response

-- `publicPath`
abbrev pub public_of : Site → Components
public_of site = absolute site.workspace site.public_dir

-- `strings.TrimPrefix path "/"`, or the index.
abbrev pub request_path : Bytes → Bytes
request_path path =
    let rest = if has_prefix path (codes "/") then drop 1 path else path in
    if is_blank rest then codes "index.html" else rest

-- `filepath.Join` of an absolute path and a relative one.
abbrev pub join_path : Components → Bytes → Components
join_path dir path = clean_onto (reverse dir) (split path)

abbrev pub path_text : Components → Bytes
path_text p = 47 ∷ join p

-- Whether `filepath.Rel` of the two has no error and does not begin with two dots.
abbrev pub is_within : Components → Components → Bool
is_within root p = not (has_prefix (rel_text root p) (codes ".."))

module _ (d : Disk) where
  -- `filepath.EvalSymlinks`, or the path as it is.
  abbrev pub real_or_same : Components → Components
  real_or_same = real_workspace d.files

  unfoldable pub serve_file : Components → Bytes → Response
  serve_file public path =
      let real = real_or_same (join_path public path) in
      if is_within (real_or_same public) real then file real else not_found

  -- The script of the route, if it is below the directory.
  unfoldable pub serve_route : Option (Bytes × Params) → Components → Bytes → Response
  unfolding serve_file
  serve_route none public path = serve_file public path
  serve_route (some (script, ps)) public path =
      let real = real_or_same (clean_onto [] (split script)) in
      if is_within (real_or_same public) real then runs real ps else serve_file public path

  unfoldable pub serve_script :
      (now later : ℕ) → Components → Bytes → RouteCache → Response × RouteCache
  unfolding serve_route
  serve_script now later public path cache =
      let (route, cache') = resolve_route d.scripts now later (path_text public) path cache in
      (serve_route route public path, cache')

  unfoldable pub serve_path :
      (now later : ℕ) → Site → Components → Bytes → RouteCache → Response × RouteCache
  unfolding serve_script serve_file
  serve_path now later site public path cache =
      if has_suffix path (codes ".server.js")
      then (not_found, cache)
      else if site.has_scripts && not (d.stat (join_path public path))
      then serve_script now later public path cache
      else (serve_file public path, cache)

  -- `servePublic`
  unfoldable pub serve_public :
      (now later : ℕ) → Site → IpFilter.Request → Bytes → RouteCache → Response × RouteCache
  unfolding serve_path
  serve_public now later site from path cache =
      if is_blank site.public_dir
      then (to_app, cache)
      else if match_ip_whitelist d.net (client_ip d.net from)
          (ip_whitelist site.cfg_list site.ws_list)
      then serve_path now later site (public_of site) (request_path path) cache
      else (forbidden, cache)
