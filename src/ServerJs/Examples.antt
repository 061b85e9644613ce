-- ===== src/ServerJs/Examples.antt =====
-- Tests and examples of the routes: a directory with a script and a catch-all.
use altclaw.Common.{
  ℕ, ◌≤◌, Bool, true, false, none, some, List, [], ◌∷◌, ◌++◌, bytes_eq, codes, leb, if◌then◌else◌,
  ◌||◌, text_eq, has_prefix, lookup, insert, remove, arith, ◌≡◌, refl, ◌↔◌, All,
}
use altclaw.ServerJs.{Files, Candidate, priority, split_path, resolve_segments}
use altclaw.ServerJs.Cache.{Route, get, put}
use altclaw.ServerJs.Cache.Bounded.{Use, after, last_put, after-IsBounded, IsBounded}
use altclaw.ServerJs.Cache.Sound.{get-last_put}
use altclaw.ServerJs.Sorting.{IsSort, IsOrdered}
use altclaw.ServerJs.Routes.{resolve_segments-Restores}
use altclaw.ServerJs.Served.{IsServed, resolve_segments-IsServed}
use altclaw.ServerJs.Exact.{resolve_segments-exact}

abbrev place : Candidate → List Candidate → List Candidate
place c [] = c ∷ []
place c (d ∷ ds) =
    let rest = place c ds in if leb (priority c) (priority d) then c ∷ d ∷ ds else d ∷ rest

abbrev sort : List Candidate → List Candidate
sort [] = []
sort (c ∷ cs) = place c (sort cs)

All-place :
    (P : Candidate → Type 0) (c : Candidate) (cs : List Candidate)
    → (P c × All P cs) ↔ All P (place c cs)
All-place P c [] = ((λ h. h), (λ h. h))
All-place P c (d ∷ ds) = by_order (leb (priority c) (priority d)) (All-place P c ds)
  where
    by_order :
        (b : Bool)
        → ((P c × All P ds) ↔ All P (place c ds))
        → (P c × (P d × All P ds)) ↔ All P (if b then c ∷ d ∷ ds else d ∷ place c ds)
    by_order true h = ((λ x. x), (λ x. x))
    by_order false h = ((λ x. (x.1.0, h.0 (x.0, x.1.1))), (λ x. ((h.1 x.1).0, (x.0, (h.1 x.1).1))))

lower_bound :
    (n m : ℕ) (cs : List Candidate)
    → n ≤ m
    → All (λ d. m ≤ priority d) cs
    → All (λ d. n ≤ priority d) cs
lower_bound n m [] le h = tt
lower_bound n m (c ∷ cs) le h = (omega (arith, h.0), lower_bound n m cs le h.1)

place-IsOrdered : (c : Candidate) (cs : List Candidate) → IsOrdered cs → IsOrdered (place c cs)
place-IsOrdered c [] h = (tt, tt)
place-IsOrdered c (d ∷ ds) h =
    by_order (leb (priority c) (priority d)) refl (place-IsOrdered c ds h.1)
  where
    by_order :
        (b : Bool)
        → leb (priority c) (priority d) ≡ b
        → IsOrdered (place c ds)
        → IsOrdered (if b then c ∷ d ∷ ds else d ∷ place c ds)
    by_order true e rest =
        let le : priority c ≤ priority d = ground arith in
        ((le, lower_bound (priority c) (priority d) ds le h.0), h)
    by_order false e rest =
        ((All-place (λ x. priority d ≤ priority x) c ds).0 (ground arith, h.0), rest)

sort-IsSort : IsSort sort
sort-IsSort = record { keeps = keeps; ordered = ordered }
  where
    keeps : (P : Candidate → Type 0) (cs : List Candidate) → All P cs ↔ All P (sort cs)
    keeps P [] = ((λ h. h), (λ h. h))
    keeps P (c ∷ cs) =
        let i = keeps P cs in
        let j = All-place P c (sort cs) in
        ((λ h. j.0 (h.0, i.0 h.1)), (λ h. ((j.1 h).0, i.1 (j.1 h).1)))

    ordered : (cs : List Candidate) → IsOrdered (sort cs)
    ordered [] = tt
    ordered (c ∷ cs) = place-IsOrdered c (sort cs) (ordered cs)

-- "pub" holds hi.server.js and [...rest].server.js, and "api" an empty directory [id].
abbrev site : Files
site = record {
  file_exists = λ p. text_eq p (codes "pub/hi.server.js");
  dir_exists = λ p. text_eq p (codes "pub") || text_eq p (codes "api/[id]");
  read_dir = λ p.
      if text_eq p (codes "pub")
      then record { name = codes "hi.server.js"; is_dir = false }
        ∷ record { name = codes "[...rest].server.js"; is_dir = false }
        ∷ []
      else if text_eq p (codes "api")
      then record { name = codes "[id]"; is_dir = true } ∷ []
      else [];
  join = λ dir name. dir ++ (codes "/" ++ name);
  sort = sort;
}

route_tests :
    (resolve_segments site (codes "pub") (split_path (codes "/hi")) []
      ≡ (some (codes "pub/hi.server.js"), []))
    × (resolve_segments site (codes "pub") (split_path (codes "/a/b")) []
        ≡ (some (codes "pub/[...rest].server.js"), (codes "rest", codes "a/b") ∷ []))
    × (resolve_segments site (codes "other") (split_path (codes "/hi")) [] ≡ (none, []))
unfolding resolve_segments split_path text_eq has_prefix priority insert remove
route_tests = (refl, refl, refl)

parameters_restored :
    lookup
      (codes "id")
      (resolve_segments site (codes "api") (codes "7" ∷ []) ((codes "id", codes "1") ∷ [])).1
    ≡ some (codes "1")
unfolding resolve_segments text_eq lookup insert remove has_prefix priority
parameters_restored =
    resolve_segments-Restores site (codes "7" ∷ []) (codes "api") ((codes "id", codes "1") ∷ [])
      (codes "id") refl

resolve_segments-IsServed_example : IsServed site (codes "pub") (codes "pub/hi.server.js")
unfolding resolve_segments text_eq has_prefix priority
resolve_segments-IsServed_example =
    resolve_segments-IsServed site sort-IsSort (codes "hi" ∷ []) (codes "pub") []
      (codes "pub/hi.server.js") refl

resolve_segments-exact_example :
    resolve_segments site (codes "pub") (codes "hi" ∷ []) [] ≡ (some (codes "pub/hi.server.js"), [])
unfolding text_eq
resolve_segments-exact_example =
    resolve_segments-exact site (codes "pub") (codes "hi") [] sort-IsSort refl

abbrev route : Route
route = record { script_path = codes "a.server.js"; params = []; is_found = true; expires = 0 }

abbrev uses : List Use
uses = record { now = 7; key = codes "k"; stores = some route } ∷ []

-- A route that expired and is stored again is named twice by the order.
order_of_expired :
    (after (
      record { now = 90000000000; key = codes "k"; stores = some route }
      ∷ record { now = 80000000000; key = codes "k"; stores = none }
      ∷ record { now = 0; key = codes "k"; stores = some route }
      ∷ [])).order
    ≡ codes "k" ∷ codes "k" ∷ []
unfolding get put lookup insert remove text_eq
order_of_expired = refl

after-IsBounded_example : IsBounded (after uses)
after-IsBounded_example = after-IsBounded uses

last_put_found :
    (last_put (codes "k") uses ≡ some (record route { expires = 60000000007 })) × (8 ≤ 60000000007)
unfolding get put lookup insert text_eq
last_put_found = get-last_put uses 8 (codes "k") (record route { expires = 60000000007 }) refl
