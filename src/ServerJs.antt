-- ===== src/ServerJs.antt =====
-- internal/serverjs/serverjs.go: the script that serves a request path, and the cache before it.
pub mod Cache
pub mod Routes
pub mod Sorting
pub mod Served
pub mod Exact
pub mod Examples
use altclaw.Common.{
  ℕ, zero, suc, ◌+◌, ◌-◌, ◌*◌, Bool, true, false, Option, none, some, List, [], ◌∷◌, ◌++◌, ◌&&◌,
  ◌||◌, not, Bytes, bytes_eq, codes, ◌==◌, leb, ltb, if◌then◌else◌, length, take, drop, has_prefix,
  text_eq, lookup, insert, remove, map, keep,
}

-- A segment of a path with its value, in the map of the parameters.
abbrev pub Params : Type 0
Params = List (Bytes × Bytes)

-- An entry of `os.ReadDir`.
pub record DirEntry : Type 0 where
  pub name : Bytes
  pub is_dir : Bool

pub record DynamicEntry : Type 0 where
  pub param : Bytes
  pub path : Bytes

-- What `resolveSegments` tries. A failed attempt leaves the parameters as they were.
pub data Candidate : Type 0 where
  exact_file : Bytes → Candidate
  exact_dir : Bytes → Candidate
  dynamic_dir : DynamicEntry → Candidate
  dynamic_file : DynamicEntry → Candidate
  catch_all : DynamicEntry → Candidate

unfoldable pub priority : Candidate → ℕ
priority (exact_file _) = 0
priority (exact_dir _) = 1
priority (dynamic_dir _) = 2
priority (dynamic_file _) = 2
priority (catch_all _) = 3

-- The file system, `filepath.Join`, and `sort.Slice` on the priorities.
pub record Files : Type 0 where
  pub file_exists : Bytes → Bool
  pub dir_exists : Bytes → Bool
  pub read_dir : Bytes → List DirEntry
  pub join : Bytes → Bytes → Bytes
  pub sort : List Candidate → List Candidate

-- `strings.HasSuffix`
abbrev pub has_suffix : Bytes → Bytes → Bool
has_suffix s p = leb (length p) (length s) && text_eq (drop (length s - length p) s) p

-- `strings.TrimPrefix` and `strings.TrimSuffix`
abbrev pub trim : Bytes → Bytes → Bytes → Bytes
trim prefix suffix s =
    let t = if has_prefix s prefix then drop (length prefix) s else s in
    if has_suffix t suffix then take (length t - length suffix) t else t

-- `strings.Split p "/"`, with the segment read so far.
unfoldable split_slashes : Bytes → Bytes → List Bytes
split_slashes seg [] = seg ∷ []
split_slashes seg (c ∷ cs) =
    let next = split_slashes [] cs in
    let more = split_slashes (seg ++ c ∷ []) cs in if c == b'/' then seg ∷ next else more

abbrev split_nonempty : Bytes → List Bytes
split_nonempty [] = []
split_nonempty (c ∷ cs) = split_slashes [] (c ∷ cs)

unfoldable pub split_path : Bytes → List Bytes
unfolding split_slashes
split_path p = split_nonempty (if has_prefix p (codes "/") then drop 1 p else p)

-- `strings.Join segs "/"`
unfoldable pub join_slashes : List Bytes → Bytes
join_slashes [] = []
join_slashes (s ∷ []) = s
join_slashes (s ∷ t ∷ ss) = s ++ (b'/' ∷ join_slashes (t ∷ ss))

module _ (fs : Files) where
  abbrev pub named : Bytes → Bytes → Bytes → List DynamicEntry → List DynamicEntry
  named dir name [] rest = rest
  named dir name (c ∷ param) rest = record { param = c ∷ param; path = fs.join dir name } ∷ rest

  abbrev is_dynamic : DirEntry → Bool
  is_dynamic e = has_prefix e.name (codes "[") && not (has_prefix e.name (codes "[..."))

  -- The two results of `listDynamic`.
  unfoldable pub dynamic_dirs : Bytes → List DirEntry → List DynamicEntry
  dynamic_dirs dir [] = []
  dynamic_dirs dir (e ∷ es) =
      let rest = dynamic_dirs dir es in
      if is_dynamic e && e.is_dir
      then named dir e.name (trim (codes "[") (codes "]") e.name) rest
      else rest

  unfoldable pub dynamic_files : Bytes → List DirEntry → List DynamicEntry
  dynamic_files dir [] = []
  dynamic_files dir (e ∷ es) =
      let rest = dynamic_files dir es in
      if is_dynamic e && not e.is_dir && has_suffix e.name (codes "].server.js")
      then named dir e.name (trim (codes "[") (codes "].server.js") e.name) rest
      else rest

  unfoldable pub list_catch_all : Bytes → List DirEntry → List DynamicEntry
  list_catch_all dir [] = []
  list_catch_all dir (e ∷ es) =
      let rest = list_catch_all dir es in
      if not e.is_dir && has_prefix e.name (codes "[...") && has_suffix e.name (codes "].server.js")
      then named dir e.name (trim (codes "[...") (codes "].server.js") e.name) rest
      else rest

  abbrev pub is_empty_list : List Bytes → Bool
  is_empty_list [] = true
  is_empty_list (_ ∷ _) = false

  abbrev pub script_of : Bytes → Bytes → Bytes
  script_of dir seg = fs.join dir (seg ++ codes ".server.js")

  -- The candidates in the order in which they are appended.
  unfoldable pub candidates : Bytes → Bytes → List Bytes → List Candidate
  unfolding dynamic_dirs dynamic_files list_catch_all
  candidates dir seg rest =
      let entries = fs.read_dir dir in
      let is_last = is_empty_list rest in
      (if is_last then exact_file (script_of dir seg) ∷ [] else [])
      ++ (exact_dir (fs.join dir seg)
          ∷ (map dynamic_dir (dynamic_dirs dir entries)
              ++ ((if is_last then map dynamic_file (dynamic_files dir entries) else [])
                  ++ map catch_all (list_catch_all dir entries))))

  -- The script, and the parameters that the search leaves.
  abbrev pub Found : Type 0
  Found = Option Bytes × Params

  -- The old value of the parameter comes back after a failed attempt.
  unfoldable pub backtrack : Bytes → Option Bytes → Found → Found
  backtrack param old (some script, ps) = (some script, ps)
  backtrack param none (none, ps) = (none, remove param ps)
  backtrack param (some v) (none, ps) = (none, insert param v ps)

  -- One candidate; `deeper` searches a directory for the rest of the segments.
  unfoldable pub attempt :
      (Bytes → Params → Found) → List Bytes → Bytes → Candidate → Params → Found
  unfolding backtrack
  attempt deeper segs seg (exact_file path) ps =
      (if fs.file_exists path then some path else none, ps)
  attempt deeper segs seg (exact_dir path) ps =
      if fs.dir_exists path then deeper path ps else (none, ps)
  attempt deeper segs seg (dynamic_dir d) ps =
      backtrack d.param (lookup d.param ps) (deeper d.path (insert d.param seg ps))
  attempt deeper segs seg (dynamic_file f) ps = (some f.path, insert f.param seg ps)
  attempt deeper segs seg (catch_all ca) ps = (some ca.path, insert ca.param (join_slashes segs) ps)

  abbrev pub or_else : Found → (Params → Found) → Found
  or_else (some script, ps) next = (some script, ps)
  or_else (none, ps) next = next ps

  unfoldable pub try_each :
      (Bytes → Params → Found) → List Bytes → Bytes → List Candidate → Params → Found
  unfolding attempt
  try_each deeper segs seg [] ps = (none, ps)
  try_each deeper segs seg (c ∷ cs) ps =
      or_else (attempt deeper segs seg c ps) (try_each deeper segs seg cs)

  unfoldable pub resolve_segments : Bytes → List Bytes → Params → Found
  unfolding try_each candidates join_slashes
  resolve_segments dir [] ps =
      let script = fs.join dir (codes "index.server.js") in
      (if fs.file_exists script then some script else none, ps)
  resolve_segments dir (seg ∷ rest) ps =
      try_each (λ d. resolve_segments d rest) (seg ∷ rest) seg (fs.sort (candidates dir seg rest))
        ps
