-- ===== src/ServerJs/Cache/Sound.antt =====
-- The cache answers with what was stored last.
use altclaw.Common.{
  ℕ, ◌+◌, ◌≤◌, Option, none, some, List, [], ◌∷◌, Bytes, bytes_eq, if◌then◌else◌, text_eq, lookup,
  insert, remove, lookup-insert, lookup-remove, arith, ◌≡◌, refl,
}
use altclaw.ServerJs.Cache.{
  Route, RouteCache, route_cache_ttl, get_found, get, evict, make_room, put,
}
use altclaw.ServerJs.Cache.Bounded.{Use, use_with, after, store_of, last_put}

lookup-evict :
    (k : Bytes) (e : Route) (order : List Bytes) (es : List (Bytes × Route))
    → lookup k (evict order es).entries ≡ some e
    → lookup k es ≡ some e
unfolding evict
lookup-evict k e [] es h = h
lookup-evict k e (oldest ∷ order) es h =
    ground (arith, lookup-evict k e order (remove oldest es), lookup-remove oldest k es)

lookup-get :
    (k : Bytes) (e : Route) (now : ℕ) (key : Bytes) (c : RouteCache)
    → lookup k (get now key c).1.entries ≡ some e
    → lookup k c.entries ≡ some e
unfolding get
lookup-get k e now key c = by_entry (lookup key c.entries)
  where
    by_entry :
        (f : Option Route)
        → lookup k (get_found f now key c).1.entries ≡ some e
        → lookup k c.entries ≡ some e
    by_entry none h = h
    by_entry (some d) h = ground (arith, lookup-remove key k c.entries)

lookup-put :
    (k : Bytes) (d : Route) (now : ℕ) (key : Bytes) (e : Route) (c : RouteCache)
    → lookup k (put now key e c).entries ≡ some d
    → (if text_eq key k
        then some (record e { expires = now + route_cache_ttl })
        else lookup k c.entries)
      ≡ some d
unfolding put
lookup-put k d now key e c = by_entry (lookup key c.entries)
  where
    stored : Route
    stored = record e { expires = now + route_cache_ttl }

    by_entry :
        (f : Option Route)
        → lookup k (insert key stored (make_room f key c).entries) ≡ some d
        → (if text_eq key k then some stored else lookup k c.entries) ≡ some d
    by_entry none h = ground (
      arith,
      lookup-insert key k stored (evict c.order c.entries).entries,
      lookup-evict k d c.order c.entries,
    )
    by_entry (some x) h = ground (arith, lookup-insert key k stored c.entries)

lookup-use_with :
    (k : Bytes) (d : Route) (s : Option Route) (u : Use) (us : List Use)
    → (lookup k (after us).entries ≡ some d → last_put k us ≡ some d)
    → lookup k (use_with s u (after us)).entries ≡ some d
    → elim (store_of k s u) as (λ _. Option Route) [ none ↦ last_put k us | some e ↦ some e ]
      ≡ some d
lookup-use_with k d none u us older h = older (lookup-get k d u.now u.key (after us) h)
lookup-use_with k d (some e) u us older h =
    ground (arith, lookup-put k d u.now u.key e (after us) h)

lookup-after :
    (us : List Use) (k : Bytes) (d : Route)
    → lookup k (after us).entries ≡ some d
    → last_put k us ≡ some d
unfolding lookup
lookup-after [] k d h = absurd (ground arith)
lookup-after (u ∷ us) k d h = lookup-use_with k d u.stores u us (lookup-after us k d) h

-- What the cache returns for a key is what was stored for it last, no longer than a minute ago.
pub get-last_put :
    (us : List Use) (now : ℕ) (key : Bytes) (e : Route)
    → (get now key (after us)).0 ≡ some e
    → (last_put key us ≡ some e) × (now ≤ e.expires)
unfolding get
get-last_put us now key e = by_entry (lookup key (after us).entries) refl
  where
    by_entry :
        (f : Option Route)
        → lookup key (after us).entries ≡ f
        → (get_found f now key (after us)).0 ≡ some e
        → (last_put key us ≡ some e) × (now ≤ e.expires)
    by_entry none l h = absurd (ground arith)
    by_entry (some d) l h = ground (arith, lookup-after us key d l)
