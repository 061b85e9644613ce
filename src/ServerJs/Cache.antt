-- ===== src/ServerJs/Cache.antt =====
-- internal/serverjs/serverjs.go: the bounded cache of resolved routes.
pub mod Bounded
pub mod Sound
use altclaw.Common.{
  ℕ, zero, suc, ◌+◌, ◌*◌, Bool, true, false, Option, none, some, List, [], ◌∷◌, ◌++◌, ◌&&◌, ◌||◌,
  not, Bytes, bytes_eq, codes, leb, ltb, if◌then◌else◌, length, text_eq, any, lookup, insert,
  remove,
}
use altclaw.ServerJs.{Params, Files, split_path, resolve_segments}

-- `routeCacheEntry`, with the time of its expiry in nanoseconds.
pub record Route : Type 0 where
  pub script_path : Bytes
  pub params : Params
  pub is_found : Bool
  pub expires : ℕ

pub record RouteCache : Type 0 where
  pub entries : List (Bytes × Route)
  pub order : List Bytes

abbrev pub route_cache_max : ℕ
route_cache_max = 64

abbrev pub route_cache_ttl : ℕ
route_cache_ttl = 60 * 1000000000

abbrev pub new_route_cache : RouteCache
new_route_cache = record { entries = []; order = [] }

-- The first occurrence goes to the end.
unfoldable pub move_to_end : Bytes → List Bytes → List Bytes → List Bytes
move_to_end key before [] = before
move_to_end key before (k ∷ ks) =
    let later = move_to_end key (before ++ k ∷ []) ks in
    if text_eq k key then before ++ (ks ++ key ∷ []) else later

unfoldable pub touch : Bytes → List Bytes → List Bytes
unfolding move_to_end
touch key order = move_to_end key [] order

unfoldable pub get_found : Option Route → ℕ → Bytes → RouteCache → Option Route × RouteCache
unfolding touch
get_found none now key c = (none, c)
get_found (some e) now key c =
    if ltb e.expires now
    then (none, record c { entries = remove key c.entries })
    else (some e, record c { order = touch key c.order })

unfoldable pub get : ℕ → Bytes → RouteCache → Option Route × RouteCache
unfolding get_found
get now key c = get_found (lookup key c.entries) now key c

-- `for len(c.entries) >= routeCacheMax && len(c.order) > 0`
unfoldable pub evict : List Bytes → List (Bytes × Route) → RouteCache
evict [] entries = record { entries = entries; order = [] }
evict (oldest ∷ order) entries =
    let rest = evict order (remove oldest entries) in
    if leb route_cache_max (length entries)
    then rest
    else record { entries = entries; order = oldest ∷ order }

abbrev pub add_to_end : Bytes → RouteCache → RouteCache
add_to_end key c = record c { order = c.order ++ key ∷ [] }

unfoldable pub make_room : Option Route → Bytes → RouteCache → RouteCache
unfolding touch evict
make_room (some _) key c = record c { order = touch key c.order }
make_room none key c = add_to_end key (evict c.order c.entries)

unfoldable pub put : ℕ → Bytes → Route → RouteCache → RouteCache
unfolding make_room
put now key e c =
    let room = make_room (lookup key c.entries) key c in
    record room { entries = insert key (record e { expires = now + route_cache_ttl }) room.entries }

abbrev pub cache_key : Bytes → Bytes → Bytes
cache_key public_dir path = public_dir ++ (0 ∷ path)

abbrev pub to_answer : Route → Option (Bytes × Params)
to_answer e = if e.is_found then some (e.script_path, e.params) else none

abbrev pub to_route : Option Bytes × Params → Route
to_route (some script, ps) = record {
  script_path = script;
  params = ps;
  is_found = true;
  expires = 0;
}
to_route (none, ps) = record { script_path = []; params = []; is_found = false; expires = 0 }

-- The clock is read when the cache is asked and when the answer is stored.
unfoldable pub resolve_missed :
    Files → ℕ → Bytes → Bytes → Option Route → RouteCache → Option (Bytes × Params) × RouteCache
unfolding put resolve_segments split_path
resolve_missed fs later dir path (some e) c = (to_answer e, c)
resolve_missed fs later dir path none c =
    let e = to_route (resolve_segments fs dir (split_path path) []) in
    (to_answer e, put later (cache_key dir path) e c)

-- `ResolveRoute`
unfoldable pub resolve_route :
    Files → (now later : ℕ) → Bytes → Bytes → RouteCache → Option (Bytes × Params) × RouteCache
unfolding resolve_missed get
resolve_route fs now later dir path c =
    let (hit, c') = get now (cache_key dir path) c in resolve_missed fs later dir path hit c'
