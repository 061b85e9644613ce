-- ===== src/Web/Slash.antt =====
-- A request path with a slash at its end.
use altclaw.Common.{
  drop-snoc, ℕ, ◌-◌, Bool, true, false, List, [], ◌∷◌, ◌++◌, ◌&&◌, not, Bytes, codes, reverse,
  if◌then◌else◌, drop, has_prefix, length, text_eq, text_eq_iff, leb, length-append, ◌==◌,
  reverse-append, arith, ◌≡◌, refl, sym, ◌∙◌, ap,
}
use altclaw.IpFilter
use altclaw.IpFilter.{is_blank, client_ip, match_ip_whitelist, ip_whitelist}
use altclaw.Paths.{Components, split, clean_onto, clean_one, cons_head}
use altclaw.ServerJs.Cache.{RouteCache}
use altclaw.Web.{has_suffix}
use altclaw.Web.Public.{
  Disk, Site, Response, file, request_path, public_of, join_path, is_within, real_or_same,
  serve_file, serve_path, serve_public,
}

-- A text has a first part.
split-parts : (s : Bytes) → (p : Bytes) × (ps : List Bytes) × (split s ≡ p ∷ ps)
unfolding split
split-parts [] = ([], [], refl)
split-parts (c ∷ s) = by_char (c == 47) (split s)
  where
    by_char :
        (b : Bool) (parts : List Bytes)
        → (p : Bytes) × (ps : List Bytes) × ((if b then [] ∷ parts else cons_head c parts) ≡ p ∷ ps)
    by_char true parts = ([], parts, refl)
    by_char false [] = (c ∷ [], [], refl)
    by_char false (q ∷ qs) = (c ∷ q, qs, refl)

split-slash : (s : Bytes) → split (s ++ codes "/") ≡ split s ++ [] ∷ []
unfolding split
split-slash [] = refl
split-slash (c ∷ s) =
    let (p, ps, e) = split-parts s in
    by_char (c == 47) p ps e (split-slash s ∙ ap (λ parts. parts ++ [] ∷ []) e)
  where
    by_char :
        (b : Bool) (p : Bytes) (ps : List Bytes)
        → split s ≡ p ∷ ps
        → split (s ++ codes "/") ≡ (p ∷ ps) ++ [] ∷ []
        → (if b then [] ∷ split (s ++ codes "/") else cons_head c (split (s ++ codes "/")))
          ≡ (if b then [] ∷ split s else cons_head c (split s)) ++ [] ∷ []
    by_char true p ps e k = rw (k, e)
    by_char false p ps e k = rw (k, e)

clean_onto-blank :
    (done parts : List Bytes) → clean_onto done (parts ++ [] ∷ []) ≡ clean_onto done parts
unfolding clean_onto text_eq
clean_onto-blank done [] = refl
clean_onto-blank done (p ∷ ps) = clean_onto-blank (clean_one done p) ps

join_path-slash : (dir : Components) (q : Bytes) → join_path dir (q ++ codes "/") ≡ join_path dir q
join_path-slash dir q =
    ap (clean_onto (reverse dir)) (split-slash q) ∙ clean_onto-blank (reverse dir) (split q)

no_script-slash : (q : Bytes) → has_suffix (q ++ codes "/") (codes ".server.js") ≡ false
no_script-slash q = by_test (text_eq rest (codes ".server.js")) refl
  where
    n : ℕ
    n = length (q ++ codes "/") - 10

    rest : Bytes
    rest = drop n (q ++ codes "/")

    by_test :
        (b : Bool)
        → text_eq rest (codes ".server.js") ≡ b
        → leb 10 (length (q ++ codes "/")) && b ≡ false
    by_test false e = ground arith
    by_test true e =
        let same : drop n q ++ codes "/" ≡ codes ".server.js" =
          sym (drop-snoc n q b'/' (omega (arith, length-append q (codes "/"))))
          ∙ (text_eq_iff rest (codes ".server.js")).0 e in
        let turned : 47 ∷ reverse (drop n q) ≡ reverse (codes ".server.js") =
          sym (reverse-append (drop n q) (codes "/")) ∙ ap reverse same in
        absurd (ground (arith, turned))

request_path-slash : (q : Bytes) → request_path (codes "/" ++ (q ++ codes "/")) ≡ q ++ codes "/"
unfolding has_prefix
request_path-slash [] = refl
request_path-slash (c ∷ q) = refl

-- A slash after the path of a file in the public directory, whatever its name, gets the file itself:
-- also the source of a server script. The client is admitted, and the file lies below the directory.
pub serve_public-slash :
    (d : Disk) (now later : ℕ) (site : Site) (from : IpFilter.Request) (q : Bytes)
    (cache : RouteCache)
    → is_blank site.public_dir ≡ false
    → match_ip_whitelist d.net (client_ip d.net from) (ip_whitelist site.cfg_list site.ws_list)
      ≡ true
    → d.stat (join_path (public_of site) q) ≡ true
    → is_within (real_or_same d (public_of site)) (real_or_same d (join_path (public_of site) q))
      ≡ true
    → serve_public d now later site from (codes "/" ++ (q ++ codes "/")) cache
      ≡ (file (real_or_same d (join_path (public_of site) q)), cache)
unfolding serve_public serve_path serve_file
serve_public-slash d now later site from q cache b m found inside =
    rw
      (
        b,
        m,
        request_path-slash q,
        no_script-slash q,
        join_path-slash (public_of site) q,
        found,
        inside,
      )
      (by_scripts site.has_scripts _)
  where
    sent : Response × RouteCache
    sent = (file (real_or_same d (join_path (public_of site) q)), cache)

    by_scripts :
        (h : Bool) (x : Response × RouteCache)
        → (if◌then◌else◌ {A = Response × RouteCache} (h && not true) x sent) ≡ sent
    by_scripts true x = refl
    by_scripts false x = refl
