-- ===== src/ServerJs/Served.antt =====
-- Which scripts the search finds.
use altclaw.Common.{
  Bool, true, Option, none, some, List, [], ◌∷◌, ◌++◌, Bytes, bytes_eq, if◌then◌else◌, text_eq,
  text_eq_iff, lookup, insert, arith, ◌≡◌, ◌⊎◌, inl, inr, All, All-append, map, any, subst, false,
  not, ◌&&◌, codes, has_prefix, refl,
}
use altclaw.ServerJs.Sorting.{IsSort}
use altclaw.ServerJs.{
  Files, Params, DirEntry, DynamicEntry, named, has_suffix, Candidate, exact_file, exact_dir,
  dynamic_dir, dynamic_file, catch_all, or_else, is_empty_list, dynamic_dirs, dynamic_files,
  list_catch_all, script_of, candidates, backtrack, attempt, try_each, resolve_segments,
}

some-inj : (a b : Bytes) → some a ≡ some b → a ≡ b
some-inj a b e = cc

All-weaken {ℓ κ μ} :
    {A : Type ℓ} (P : A → Type κ) (Q : A → Type μ) (xs : List A)
    → ((x : A) → P x → Q x)
    → All P xs
    → All Q xs
All-weaken P Q [] f h = tt
All-weaken P Q (x ∷ xs) f h = (f x h.0, All-weaken P Q xs f h.1)

All-map {ℓ κ μ} :
    {A : Type ℓ} {B : Type κ} (P : B → Type μ) (f : A → B) (xs : List A)
    → All (λ x. P (f x)) xs
    → All P (map f xs)
All-map P f [] h = tt
All-map P f (x ∷ xs) h = (h.0, All-map P f xs h.1)

bracket : (s : Bytes) → has_prefix s (codes "[...") ≡ true → has_prefix s (codes "[") ≡ true
unfolding has_prefix
bracket [] h = absurd (cc)
bracket (c ∷ s) h = ground arith

module _ (fs : Files) where
  -- The directory that is reached by names from another one.
  abbrev pub down : Bytes → List Bytes → Bytes
  down dir [] = dir
  down dir (name ∷ names) = down (fs.join dir name) names

  -- An entry that is no directory, has a name of the form "[...].server.js", and stands at the path.
  abbrev pub is_script : Bytes → Bytes → DirEntry → Bool
  is_script dir path e =
      not e.is_dir
      && has_prefix e.name (codes "[")
      && has_suffix e.name (codes "].server.js")
      && text_eq (fs.join dir e.name) path

  -- A script of the directory: a file whose name ends in ".server.js", or a listed entry.
  abbrev pub IsScript : Bytes → Bytes → Type 0
  IsScript dir path =
      ((seg : Bytes) × (path ≡ fs.join dir (seg ++ codes ".server.js"))
        × (fs.file_exists path ≡ true))
      ⊎ (any (is_script dir path) (fs.read_dir dir) ≡ true)

  abbrev pub IsServed : Bytes → Bytes → Type 0
  IsServed dir path = (names : List Bytes) × IsScript (down dir names) path

  abbrev IsIn : Bytes → Bytes → Type 0
  IsIn dir path = (name : Bytes) × (path ≡ fs.join dir name)

  -- What a candidate of a directory is worth to the search.
  abbrev Serves : Bytes → Candidate → Type 0
  Serves dir (exact_file path) = (seg : Bytes) × (path ≡ fs.join dir (seg ++ codes ".server.js"))
  Serves dir (exact_dir path) = IsIn dir path
  Serves dir (dynamic_dir d) = IsIn dir d.path
  Serves dir (dynamic_file f) = any (is_script dir f.path) (fs.read_dir dir) ≡ true
  Serves dir (catch_all ca) = any (is_script dir ca.path) (fs.read_dir dir) ≡ true

  abbrev Sound : Bytes → (Params → Option Bytes × Params) → Type 0
  Sound dir search = (ps : Params) (path : Bytes) → (search ps).0 ≡ some path → IsServed dir path

  -- What is served from a directory is served from the one above it.
  climb : (dir below path : Bytes) → IsIn dir below → IsServed below path → IsServed dir path
  climb dir below path (name, e) (names, s) =
      (name ∷ names, subst (λ d. IsScript (down d names) path) e s)

  exact-IsServed :
      (dir path r : Bytes) (b : Bool)
      → Serves dir (exact_file path)
      → fs.file_exists path ≡ b
      → (if b then some path else none) ≡ some r
      → IsServed dir r
  exact-IsServed dir path r true (seg, e) h k =
      ([], subst (IsScript dir) (some-inj path r k) (inl (seg, e, h)))
  exact-IsServed dir path r false s h k = absurd (cc)

  attempt-Sound :
      (dir : Bytes) (deeper : Bytes → Params → Option Bytes × Params) (segs : List Bytes)
      (seg : Bytes) (c : Candidate)
      → ((d : Bytes) → Sound d (deeper d))
      → Serves dir c
      → Sound dir (attempt fs deeper segs seg c)
  unfolding attempt backtrack
  attempt-Sound dir deeper segs seg (exact_file path) h s ps r e =
      exact-IsServed dir path r (fs.file_exists path) s refl e
  attempt-Sound dir deeper segs seg (exact_dir path) h s ps r e =
      climb dir path r s (h path ps r (ground arith))
  attempt-Sound dir deeper segs seg (dynamic_dir d) h s ps r e = climb dir d.path r s (
      h d.path (insert d.param seg ps) r
        (by_result (lookup d.param ps) (deeper d.path (insert d.param seg ps)) e))
    where
      by_result :
          (old : Option Bytes) (found : Option Bytes × Params)
          → (backtrack fs d.param old found).0 ≡ some r
          → found.0 ≡ some r
      by_result none (some x, qs) e = e
      by_result (some v) (some x, qs) e = e
      by_result none (none, qs) e = absurd (ground arith)
      by_result (some v) (none, qs) e = absurd (ground arith)
  attempt-Sound dir deeper segs seg (dynamic_file f) h s ps r e =
      ([], subst (IsScript dir) (some-inj f.path r e) (inr s))
  attempt-Sound dir deeper segs seg (catch_all ca) h s ps r e =
      ([], subst (IsScript dir) (some-inj ca.path r e) (inr s))

  try_each-Sound :
      (dir : Bytes) (deeper : Bytes → Params → Option Bytes × Params) (segs : List Bytes)
      (seg : Bytes) (cs : List Candidate)
      → ((d : Bytes) → Sound d (deeper d))
      → All (Serves dir) cs
      → Sound dir (try_each fs deeper segs seg cs)
  unfolding try_each
  try_each-Sound dir deeper segs seg [] h s ps r = λ e. absurd (ground arith)
  try_each-Sound dir deeper segs seg (c ∷ cs) h s ps r =
      by_first (try_each fs deeper segs seg cs) (attempt fs deeper segs seg c ps)
        (attempt-Sound dir deeper segs seg c h s.0 ps r)
        (λ qs. try_each-Sound dir deeper segs seg cs h s.1 qs r)
    where
      by_first :
          (next : Params → Option Bytes × Params) (found : Option Bytes × Params)
          → (found.0 ≡ some r → IsServed dir r)
          → ((qs : Params) → (next qs).0 ≡ some r → IsServed dir r)
          → (or_else fs found next).0 ≡ some r
          → IsServed dir r
      by_first next (some x, qs) i j e = i e
      by_first next (none, qs) i j e = j qs e

  -- One more entry of a listing.
  named-All {ℓ} :
      (P : DynamicEntry → Type ℓ) (dir name param : Bytes) (rest : List DynamicEntry)
      → ((p : Bytes) → P (record { param = p; path = fs.join dir name }))
      → All P rest
      → All P (named fs dir name param rest)
  named-All P dir name [] rest h k = k
  named-All P dir name (c ∷ param) rest h k = (h (c ∷ param), k)

  listed-All {ℓ} :
      (P : DynamicEntry → Type ℓ) (dir name param : Bytes) (rest : List DynamicEntry) (b : Bool)
      → (b ≡ true → (p : Bytes) → P (record { param = p; path = fs.join dir name }))
      → All P rest
      → All P (if b then named fs dir name param rest else rest)
  listed-All P dir name param rest true h k = named-All P dir name param rest (h refl) k
  listed-All P dir name param rest false h k = k

  dynamic_dirs-IsIn :
      (dir : Bytes) (es : List DirEntry) → All (λ d. IsIn dir d.path) (dynamic_dirs fs dir es)
  unfolding dynamic_dirs
  dynamic_dirs-IsIn dir [] = tt
  dynamic_dirs-IsIn dir (e ∷ es) =
      listed-All (λ d. IsIn dir d.path) dir e.name _ (dynamic_dirs fs dir es) _
        (λ h p. (e.name, refl)) (dynamic_dirs-IsIn dir es)

  more :
      (dir : Bytes) (e : DirEntry) (es : List DirEntry) (ds : List DynamicEntry)
      → All (λ d. any (is_script dir d.path) es ≡ true) ds
      → All (λ d. any (is_script dir d.path) (e ∷ es) ≡ true) ds
  more dir e es ds =
      All-weaken (λ d. any (is_script dir d.path) es ≡ true)
        (λ d. any (is_script dir d.path) (e ∷ es) ≡ true) ds (λ d h. ground (arith, h))

  dynamic_files-IsScript :
      (dir : Bytes) (es : List DirEntry)
      → All (λ d. any (is_script dir d.path) es ≡ true) (dynamic_files fs dir es)
  unfolding dynamic_files
  dynamic_files-IsScript dir [] = tt
  dynamic_files-IsScript dir (e ∷ es) =
      listed-All (λ d. any (is_script dir d.path) (e ∷ es) ≡ true) dir e.name _
        (dynamic_files fs dir es) _
        (λ h p. ground (arith, h, text_eq_iff (fs.join dir e.name) (fs.join dir e.name)))
        (more dir e es (dynamic_files fs dir es) (dynamic_files-IsScript dir es))

  list_catch_all-IsScript :
      (dir : Bytes) (es : List DirEntry)
      → All (λ d. any (is_script dir d.path) es ≡ true) (list_catch_all fs dir es)
  unfolding list_catch_all
  list_catch_all-IsScript dir [] = tt
  list_catch_all-IsScript dir (e ∷ es) =
      listed-All (λ d. any (is_script dir d.path) (e ∷ es) ≡ true) dir e.name _
        (list_catch_all fs dir es) _
        (λ h p.
          ground (arith, h, bracket e.name, text_eq_iff (fs.join dir e.name) (fs.join dir e.name)))
        (more dir e es (list_catch_all fs dir es) (list_catch_all-IsScript dir es))

  candidates-Serves :
      (dir seg : Bytes) (rest : List Bytes) → All (Serves dir) (candidates fs dir seg rest)
  unfolding candidates
  candidates-Serves dir seg rest =
      let entries = fs.read_dir dir in
      by_last (map dynamic_dir (dynamic_dirs fs dir entries))
        (map dynamic_file (dynamic_files fs dir entries))
        (map catch_all (list_catch_all fs dir entries)) rest
        (All-map (Serves dir) dynamic_dir _ (dynamic_dirs-IsIn dir entries))
        (All-map (Serves dir) dynamic_file _ (dynamic_files-IsScript dir entries))
        (All-map (Serves dir) catch_all _ (list_catch_all-IsScript dir entries))
    where
      file : Candidate
      file = exact_file (script_of fs dir seg)

      by_last :
          (xs ys zs : List Candidate) (more : List Bytes)
          → All (Serves dir) xs
          → All (Serves dir) ys
          → All (Serves dir) zs
          → All (Serves dir) (
              (if is_empty_list fs more then file ∷ [] else [])
              ++ (exact_dir (fs.join dir seg)
                  ∷ (xs ++ ((if is_empty_list fs more then ys else []) ++ zs))))
      by_last xs ys zs [] a b c = (
        (seg, refl),
        ((seg, refl), All-append (Serves dir) xs (ys ++ zs) a (All-append (Serves dir) ys zs b c)),
      )
      by_last xs ys zs (s ∷ more) a b c = ((seg, refl), All-append (Serves dir) xs zs a c)

  -- Whatever the search of a directory returns stands in it or in a directory that is reached from it
  -- by names, and is there a file that exists and whose name ends in ".server.js", or an entry of the
  -- listing that is no directory, whose name begins with "[" and ends in "].server.js". `sort.Slice` is
  -- taken to keep the candidates.
  pub resolve_segments-IsServed :
      IsSort fs.sort
      → (segs : List Bytes) (dir : Bytes) (ps : Params) (path : Bytes)
      → (resolve_segments fs dir segs ps).0 ≡ some path
      → IsServed dir path
  unfolding resolve_segments
  resolve_segments-IsServed sorts [] dir = λ ps r e.
      exact-IsServed dir (fs.join dir (codes "index.server.js")) r
        (fs.file_exists (fs.join dir (codes "index.server.js"))) (codes "index", refl) refl e
  resolve_segments-IsServed sorts (seg ∷ rest) dir =
      try_each-Sound dir (λ d. resolve_segments fs d rest) (seg ∷ rest) seg
        (fs.sort (candidates fs dir seg rest)) (resolve_segments-IsServed sorts rest)
        ((sorts.keeps (Serves dir) (candidates fs dir seg rest)).0 (candidates-Serves dir seg rest))
