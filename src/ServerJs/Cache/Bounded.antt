-- ===== src/ServerJs/Cache/Bounded.antt =====
-- The cache stays within its bound.
use altclaw.Common.{
  ℕ, suc, ◌+◌, ◌≤◌, Bool, true, false, Option, none, some, List, [], ◌∷◌, ◌++◌, ◌||◌, Bytes,
  bytes_eq, leb, ltb, if◌then◌else◌, length, text_eq, text_eq_iff, any, lookup, insert, remove,
  lookup-insert, lookup-remove, arith, ◌≡◌, refl,
}
use altclaw.ServerJs.Cache.{
  Route, RouteCache, route_cache_max, route_cache_ttl, new_route_cache, move_to_end, touch,
  get_found, get, evict, make_room, put,
}

abbrev is_in : Bytes → List Bytes → Bool
is_in key order = any (text_eq key) order

is_in-append : (k : Bytes) (xs ys : List Bytes) → is_in k (xs ++ ys) ≡ is_in k xs || is_in k ys
is_in-append k [] ys = refl
is_in-append k (x ∷ xs) ys = ground (arith, is_in-append k xs ys)

is_in-move_to_end :
    (k key : Bytes) (before order : List Bytes)
    → is_in k (move_to_end key before order) ≡ is_in k before || is_in k order
unfolding move_to_end
is_in-move_to_end k key before [] = ground arith
is_in-move_to_end k key before (j ∷ ks) = ground (
  arith,
  text_eq_iff j key,
  is_in-append k before (ks ++ key ∷ []),
  is_in-append k ks (key ∷ []),
  is_in-append k before (j ∷ []),
  is_in-move_to_end k key (before ++ j ∷ []) ks,
)

-- Every key of the map is in the order, and the map is within its bound.
pub record IsBounded (c : RouteCache) : Type 0 where
  pub ordered : (k : Bytes) (e : Route) → lookup k c.entries ≡ some e → is_in k c.order ≡ true
  pub size : length c.entries ≤ route_cache_max

length-remove : (key : Bytes) (es : List (Bytes × Route)) → length (remove key es) ≤ length es
unfolding remove
length-remove key [] = omega arith
length-remove key ((k, e) ∷ es) = ground (arith, length-remove key es)

length-remove_found :
    (key : Bytes) (e : Route) (es : List (Bytes × Route))
    → lookup key es ≡ some e
    → suc (length (remove key es)) ≤ length es
unfolding remove lookup
length-remove_found key e [] h = absurd (ground arith)
length-remove_found key e ((k, d) ∷ es) h =
    ground (arith, length-remove key es, length-remove_found key e es)

nothing_found :
    (es : List (Bytes × Route))
    → ((k : Bytes) (e : Route) → lookup k es ≡ some e → false ≡ true)
    → length es ≡ 0
unfolding lookup
nothing_found [] h = refl
nothing_found ((k, e) ∷ es) h = absurd (ground (arith, h k e, text_eq_iff k k))

-- Room for one more, and an order that has every key.
abbrev HasRoom : RouteCache → Type 0
HasRoom c =
    ((k : Bytes) (e : Route) → lookup k c.entries ≡ some e → is_in k c.order ≡ true)
    × (suc (length c.entries) ≤ route_cache_max)

-- Eviction makes room for one more, and keeps the order of what is left.
evict-HasRoom :
    (order : List Bytes) (es : List (Bytes × Route))
    → ((k : Bytes) (e : Route) → lookup k es ≡ some e → is_in k order ≡ true)
    → HasRoom (evict order es)
unfolding evict
evict-HasRoom [] es h = (h, omega (arith, nothing_found es h))
evict-HasRoom (oldest ∷ order) es h = by_size (leb route_cache_max (length es)) refl (
    evict-HasRoom order (remove oldest es) (λ k e l.
      ground (arith, lookup-remove oldest k es, text_eq_iff oldest k, text_eq_iff k oldest, h k e)))
  where
    by_size :
        (b : Bool)
        → leb route_cache_max (length es) ≡ b
        → HasRoom (evict order (remove oldest es))
        → HasRoom (
            if b
            then evict order (remove oldest es)
            else record { entries = es; order = oldest ∷ order })
    by_size true e rest = rest
    by_size false e rest = (h, ground arith)

put-IsBounded :
    (now : ℕ) (key : Bytes) (e : Route) (c : RouteCache) → IsBounded c → IsBounded (put now key e c)
unfolding put insert
put-IsBounded now key e c b = by_entry (lookup key c.entries) refl
  where
    stored : Route
    stored = record e { expires = now + route_cache_ttl }

    by_entry :
        (f : Option Route)
        → lookup key c.entries ≡ f
        → let room = make_room f key c in
          IsBounded (record room { entries = insert key stored room.entries })
    by_entry none l =
        let (ordered, room) = evict-HasRoom c.order c.entries b.ordered in
        let left = evict c.order c.entries in
        record {
          ordered = λ k x h. ground (
            arith,
            lookup-insert key k stored left.entries,
            text_eq_iff key k,
            text_eq_iff k key,
            is_in-append k left.order (key ∷ []),
            ordered k x,
          );
          size = omega (arith, room, length-remove key left.entries);
        }
    by_entry (some d) l = record {
      ordered = λ k x h. ground (
        arith,
        lookup-insert key k stored c.entries,
        text_eq_iff key k,
        is_in-move_to_end k key [] c.order,
        b.ordered k x,
        b.ordered key d,
      );
      size = omega (arith, b.size, length-remove_found key d c.entries l);
    }

get-IsBounded : (now : ℕ) (key : Bytes) (c : RouteCache) → IsBounded c → IsBounded (get now key c).1
unfolding get
get-IsBounded now key c b = by_entry (lookup key c.entries)
  where
    by_entry : (f : Option Route) → IsBounded (get_found f now key c).1
    by_entry none = b
    by_entry (some e) = by_age (ltb e.expires now)
      where
        by_age :
            (old : Bool)
            → IsBounded
                (if◌then◌else◌ {A = Option Route × RouteCache} old
                  (none, record c { entries = remove key c.entries })
                  (some e, record c { order = touch key c.order })).1
        by_age true = record {
          ordered = λ k x h. ground (arith, lookup-remove key k c.entries, b.ordered k x);
          size = omega (arith, b.size, length-remove key c.entries);
        }
        by_age false = record {
          ordered = λ k x h. ground (arith, is_in-move_to_end k key [] c.order, b.ordered k x);
          size = b.size;
        }

-- A use of the cache: the time, the key, and the route if it is stored.
pub record Use : Type 0 where
  pub now : ℕ
  pub key : Bytes
  pub stores : Option Route

abbrev pub use_with : Option Route → Use → RouteCache → RouteCache
use_with none u c = (get u.now u.key c).1
use_with (some e) u c = put u.now u.key e c

-- The cache after uses, the last of them first.
abbrev pub after : List Use → RouteCache
after [] = new_route_cache
after (u ∷ us) = use_with u.stores u (after us)

-- The route that the use stores for the key.
abbrev pub store_of : Bytes → Option Route → Use → Option Route
store_of k none u = none
store_of k (some e) u =
    if text_eq u.key k then some (record e { expires = u.now + route_cache_ttl }) else none

-- What the last store for the key left.
abbrev pub last_put : Bytes → List Use → Option Route
last_put k [] = none
last_put k (u ∷ us) = elim (store_of k u.stores u) [ none ↦ last_put k us | some e ↦ some e ]

new_route_cache-IsBounded : IsBounded new_route_cache
unfolding lookup
new_route_cache-IsBounded = record { ordered = λ k e h. absurd (ground arith); size = omega arith }

use_with-IsBounded :
    (s : Option Route) (u : Use) (c : RouteCache) → IsBounded c → IsBounded (use_with s u c)
use_with-IsBounded none u c b = get-IsBounded u.now u.key c b
use_with-IsBounded (some e) u c b = put-IsBounded u.now u.key e c b

-- The cache never has more than 64 routes, and its order names each of them.
pub after-IsBounded : (us : List Use) → IsBounded (after us)
after-IsBounded [] = new_route_cache-IsBounded
after-IsBounded (u ∷ us) = use_with-IsBounded u.stores u (after us) (after-IsBounded us)
