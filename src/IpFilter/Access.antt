-- ===== src/IpFilter/Access.antt =====
-- Who passes the lists of the user and of the workspace.
use altclaw.Common.{
  true, Option, List, [], ◌∷◌, ◌++◌, ◌&&◌, ◌||◌, Bytes, text_eq, text_eq_iff, any, arith, ◌≡◌, refl,
}
use altclaw.IpFilter.{
  Addresses, is_nil, names, match_entries, match_ip_whitelist, add_unseen, or_nil, ip_whitelist,
}

add_unseen-is_nil :
    (result ips : List Bytes) → is_nil (add_unseen result ips) ≡ is_nil result && is_nil ips
unfolding add_unseen
add_unseen-is_nil [] [] = refl
add_unseen-is_nil (r ∷ rs) [] = refl
add_unseen-is_nil [] (ip ∷ ips) = ground (arith, add_unseen-is_nil (ip ∷ []) ips)
add_unseen-is_nil (r ∷ rs) (ip ∷ ips) =
    ground (arith, add_unseen-is_nil (r ∷ rs) ips, add_unseen-is_nil (r ∷ (rs ++ ip ∷ [])) ips)

module _ (net : Addresses) (client : Bytes) where
  match_entries-append :
      (es fs : List Bytes)
      → match_entries net client (es ++ fs)
        ≡ match_entries net client es || match_entries net client fs
  unfolding match_entries
  match_entries-append [] fs = refl
  match_entries-append (e ∷ es) fs = ground (arith, match_entries-append es fs)

  match_entries-seen :
      (ip : Bytes) (es : List Bytes)
      → any (text_eq ip) es ≡ true
      → names net client (net.trim_space ip) ≡ true
      → match_entries net client es ≡ true
  unfolding match_entries
  match_entries-seen ip [] h n = absurd (ground arith)
  match_entries-seen ip (e ∷ es) h n = ground (arith, text_eq_iff ip e, match_entries-seen ip es)

  match_entries-add_unseen :
      (result ips : List Bytes)
      → match_entries net client (add_unseen result ips)
        ≡ match_entries net client result || match_entries net client ips
  unfolding add_unseen match_entries
  match_entries-add_unseen result [] = ground arith
  match_entries-add_unseen result (ip ∷ ips) = ground (
    arith,
    match_entries-seen ip result,
    match_entries-append result (ip ∷ []),
    match_entries-add_unseen result ips,
    match_entries-add_unseen (result ++ ip ∷ []) ips,
  )

  match_ip_whitelist_lem :
      (es : List Bytes)
      → match_ip_whitelist net client es ≡ is_nil es || match_entries net client es
  unfolding match_ip_whitelist
  match_ip_whitelist_lem [] = refl
  match_ip_whitelist_lem (e ∷ es) = refl

  -- A client passes the combined list exactly if neither list has an entry, or an entry of one of
  -- them names it.
  pub match_ip_whitelist-ip_whitelist :
      (cfg ws : Option (List Bytes))
      → match_ip_whitelist net client (ip_whitelist cfg ws)
        ≡ is_nil (or_nil cfg) && is_nil (or_nil ws)
          || (match_entries net client (or_nil cfg) || match_entries net client (or_nil ws))
  unfolding ip_whitelist match_entries
  match_ip_whitelist-ip_whitelist cfg ws =
      let user = add_unseen [] (or_nil cfg) in
      ground (
        arith,
        match_ip_whitelist_lem (add_unseen user (or_nil ws)),
        add_unseen-is_nil user (or_nil ws),
        add_unseen-is_nil [] (or_nil cfg),
        match_entries-add_unseen user (or_nil ws),
        match_entries-add_unseen [] (or_nil cfg),
      )
