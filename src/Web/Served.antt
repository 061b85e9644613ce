-- ===== src/Web/Served.antt =====
-- What the public directory serves, and to whom.
use altclaw.Common.{
  ℕ, Bool, true, false, Option, none, some, [], ◌&&◌, ◌||◌, not, Bytes, codes, if◌then◌else◌, ◌≡◌,
  refl, sym, ◌∙◌, subst, some-inj, ◌⊎◌, inl, inr,
}
use altclaw.IpFilter
use altclaw.IpFilter.{
  is_blank, is_nil, client_ip, match_entries, match_ip_whitelist, or_nil, ip_whitelist,
}
use altclaw.IpFilter.Access.{match_ip_whitelist-ip_whitelist}
use altclaw.Paths.{Components, split, clean_onto}
use altclaw.Paths.Real.{IsSettled, real_workspace-IsSettled}
use altclaw.Paths.Within.{IsBelow, is_within-IsBelow}
use altclaw.ServerJs.{Params}
use altclaw.ServerJs.Cache.{RouteCache, resolve_route}
use altclaw.Web.{has_suffix}
use altclaw.Web.Public.{
  Disk, Site, Response, to_app, forbidden, not_found, runs, file, request_path, public_of,
  join_path, path_text, is_within, real_or_same, serve_file, serve_route, serve_script, serve_path,
  serve_public,
}

-- The file that is sent or run.
abbrev pub served : Response → Option Components
served to_app = none
served forbidden = none
served not_found = none
served (runs p ps) = some p
served (file p) = some p

module _ (d : Disk) where
  -- What a path asks for: the file of that path, or the script of the route that was found.
  abbrev pub IsAsked : Option (Bytes × Params) → Components → Bytes → Components → Type 0
  IsAsked route public path q =
      (q ≡ join_path public path)
      ⊎ ((script : Bytes) × (ps : Params) × (route ≡ some (script, ps))
          × (q ≡ clean_onto [] (split script)))

  -- A path that is what was asked for, with links resolved where they can be, and that is below the
  -- directory, also with its links resolved.
  abbrev pub IsInPublic : Option (Bytes × Params) → Components → Bytes → Components → Type 0
  IsInPublic route public path p =
      ((q : Components) × IsAsked route public path q × IsSettled d.files q p)
      × (root : Components) × IsSettled d.files public root
      × IsBelow root p

  -- A response that is not the file or script of a path below the directory.
  Stays : Option (Bytes × Params) → Components → Bytes → Response → Type 0
  Stays route public path r = (p : Components) → served r ≡ some p → IsInPublic route public path p

  in_public :
      (route : Option (Bytes × Params)) (public : Components) (path : Bytes) (q p : Components)
      → IsAsked route public path q
      → real_or_same d q ≡ p
      → is_within (real_or_same d public) (real_or_same d q) ≡ true
      → IsInPublic route public path p
  in_public route public path q p asked same h = (
    (q, asked, subst (IsSettled d.files q) same (real_workspace-IsSettled d.files q)),
    real_or_same d public,
    real_workspace-IsSettled d.files public,
    subst (IsBelow (real_or_same d public)) same
        (is_within-IsBelow (real_or_same d public) (real_or_same d q) h),
  )

  serve_file-Stays :
      (route : Option (Bytes × Params)) (public : Components) (path : Bytes)
      → Stays route public path (serve_file d public path)
  unfolding serve_file Stays
  serve_file-Stays route public path p e = by_test (is_within (real_or_same d public) real) refl e
    where
      real : Components
      real = real_or_same d (join_path public path)

      by_test :
          (b : Bool)
          → is_within (real_or_same d public) real ≡ b
          → served (if b then file real else not_found) ≡ some p
          → IsInPublic route public path p
      by_test true h k =
          in_public route public path (join_path public path) p (inl refl) (some-inj real p k) h
      by_test false h k = absurd (cc)

  serve_route-Stays :
      (route : Option (Bytes × Params)) (public : Components) (path : Bytes)
      → Stays route public path (serve_route d route public path)
  unfolding serve_route Stays
  serve_route-Stays none public path p e = serve_file-Stays none public path p e
  serve_route-Stays (some (script, ps)) public path p e =
      by_test (is_within (real_or_same d public) real) refl e
    where
      real : Components
      real = real_or_same d (clean_onto [] (split script))

      by_test :
          (b : Bool)
          → is_within (real_or_same d public) real ≡ b
          → served (if b then runs real ps else serve_file d public path) ≡ some p
          → IsInPublic (some (script, ps)) public path p
      by_test true h k =
          in_public (some (script, ps)) public path (clean_onto [] (split script)) p
            (inr (script, ps, refl, refl)) (some-inj real p k) h
      by_test false h k = serve_file-Stays (some (script, ps)) public path p k

  serve_path-Stays :
      (now later : ℕ) (site : Site) (public : Components) (path : Bytes) (cache : RouteCache)
      → Stays
          (resolve_route d.scripts now later (path_text public) path cache).0
          public
          path
          (serve_path d now later site public path cache).0
  unfolding serve_path serve_script Stays
  serve_path-Stays now later site public path cache =
      by_tests (has_suffix path (codes ".server.js"))
        (site.has_scripts && not (d.stat (join_path public path)))
    where
      route : Option (Bytes × Params)
      route = (resolve_route d.scripts now later (path_text public) path cache).0

      by_tests :
          (x y : Bool)
          → Stays route public path
              (if◌then◌else◌ {A = Response × RouteCache} x
                (not_found, cache)
                (if y
                  then serve_script d now later public path cache
                  else (serve_file d public path, cache))).0
      by_tests true y = λ p e. absurd (cc)
      by_tests false true = serve_route-Stays route public path
      by_tests false false = serve_file-Stays route public path

  -- The client is named by one of the lists, or both are empty.
  abbrev pub IsAdmitted : Site → IpFilter.Request → Type 0
  IsAdmitted site from =
      let client = client_ip d.net from in
      is_nil (or_nil site.cfg_list) && is_nil (or_nil site.ws_list)
        || (match_entries d.net client (or_nil site.cfg_list)
            || match_entries d.net client (or_nil site.ws_list))
      ≡ true

  -- What is sent or run for a request is the requested file, or the script of its route, with links
  -- resolved where they can be; this is below the public directory, with links resolved where they can
  -- be, by a rest that does not begin with two dots; and the client's address is in the list of the user
  -- or of the workspace, unless both are empty.
  pub serve_public-IsBelow :
      (now later : ℕ) (site : Site) (from : IpFilter.Request) (path : Bytes) (cache : RouteCache)
      (p : Components)
      → served (serve_public d now later site from path cache).0 ≡ some p
      → IsAdmitted site from
        × IsInPublic
            (resolve_route d.scripts now later
              (path_text (public_of site))
              (request_path path)
              cache).0
            (public_of site)
            (request_path path)
            p
  unfolding serve_public Stays
  serve_public-IsBelow now later site from path cache p e =
      by_tests (is_blank site.public_dir)
        (match_ip_whitelist d.net client (ip_whitelist site.cfg_list site.ws_list)) refl e
    where
      client : Bytes
      client = client_ip d.net from

      public : Components
      public = public_of site

      by_tests :
          (x y : Bool)
          → match_ip_whitelist d.net client (ip_whitelist site.cfg_list site.ws_list) ≡ y
          → served
              (if◌then◌else◌ {A = Response × RouteCache} x
                (to_app, cache)
                (if y
                  then serve_path d now later site public (request_path path) cache
                  else (forbidden, cache))).0
            ≡ some p
          → IsAdmitted site from
            × IsInPublic
                (resolve_route d.scripts now later (path_text public) (request_path path) cache).0
                public
                (request_path path)
                p
      by_tests true y h k = absurd (cc)
      by_tests false false h k = absurd (cc)
      by_tests false true h k = (
        sym (match_ip_whitelist-ip_whitelist d.net client site.cfg_list site.ws_list) ∙ h,
        serve_path-Stays now later site public (request_path path) cache p k,
      )
