-- ===== src/ServerJs/Routes.antt =====
-- What a failed search leaves of the parameters.
use altclaw.Common.{
  Option, none, some, List, [], ◌∷◌, Bytes, bytes_eq, text_eq_iff, lookup, insert, lookup-insert,
  lookup-remove, arith, ◌≡◌, refl, ◌∙◌,
}
use altclaw.ServerJs.{
  Files, Params, Candidate, exact_file, exact_dir, dynamic_dir, dynamic_file, catch_all, or_else,
  candidates, backtrack, attempt, try_each, resolve_segments,
}

module _ (fs : Files) where
  -- A search that fails leaves every parameter as it was.
  abbrev pub Restores : (Params → Option Bytes × Params) → Type 0
  Restores search =
      (ps : Params) (k : Bytes) → (search ps).0 ≡ none → lookup k (search ps).1 ≡ lookup k ps

  backtrack-Restores :
      (param seg k : Bytes) (ps : Params) (deeper : Params → Option Bytes × Params)
      → Restores deeper
      → let r = backtrack fs param (lookup param ps) (deeper (insert param seg ps)) in
        r.0 ≡ none → lookup k r.1 ≡ lookup k ps
  unfolding backtrack
  backtrack-Restores param seg k ps deeper h =
      by_result (deeper (insert param seg ps)) (lookup param ps) refl (h (insert param seg ps) k)
    where
      by_result :
          (r : Option Bytes × Params) (old : Option Bytes)
          → lookup param ps ≡ old
          → (r.0 ≡ none → lookup k r.1 ≡ lookup k (insert param seg ps))
          → (backtrack fs param old r).0 ≡ none
          → lookup k (backtrack fs param old r).1 ≡ lookup k ps
      by_result (some s, qs) old e i n = absurd (ground arith)
      by_result (none, qs) none e i n =
          ground
            (arith, i, lookup-remove param k qs, lookup-insert param k seg ps, text_eq_iff param k)
      by_result (none, qs) (some v) e i n =
          ground (
            arith,
            i,
            lookup-insert param k v qs,
            lookup-insert param k seg ps,
            text_eq_iff param k,
          )

  attempt-Restores :
      (deeper : Bytes → Params → Option Bytes × Params) (segs : List Bytes) (seg : Bytes)
      (c : Candidate)
      → ((d : Bytes) → Restores (deeper d))
      → Restores (attempt fs deeper segs seg c)
  unfolding attempt
  attempt-Restores deeper segs seg (exact_file path) h ps k n = refl
  attempt-Restores deeper segs seg (exact_dir path) h ps k n = ground (arith, h path ps k)
  attempt-Restores deeper segs seg (dynamic_dir d) h ps k n =
      backtrack-Restores d.param seg k ps (deeper d.path) (h d.path) n
  attempt-Restores deeper segs seg (dynamic_file f) h ps k n = absurd (ground arith)
  attempt-Restores deeper segs seg (catch_all ca) h ps k n = absurd (ground arith)

  try_each-Restores :
      (deeper : Bytes → Params → Option Bytes × Params) (segs : List Bytes) (seg : Bytes)
      (cs : List Candidate)
      → ((d : Bytes) → Restores (deeper d))
      → Restores (try_each fs deeper segs seg cs)
  unfolding try_each
  try_each-Restores deeper segs seg [] h ps k n = refl
  try_each-Restores deeper segs seg (c ∷ cs) h ps k n =
      by_first (try_each fs deeper segs seg cs) (attempt fs deeper segs seg c ps)
        (attempt-Restores deeper segs seg c h ps k)
        (λ qs. try_each-Restores deeper segs seg cs h qs k) n
    where
      by_first :
          (next : Params → Option Bytes × Params) (r : Option Bytes × Params)
          → (r.0 ≡ none → lookup k r.1 ≡ lookup k ps)
          → ((qs : Params) → (next qs).0 ≡ none → lookup k (next qs).1 ≡ lookup k qs)
          → (or_else fs r next).0 ≡ none
          → lookup k (or_else fs r next).1 ≡ lookup k ps
      by_first next (some s, qs) i j e = absurd (ground arith)
      by_first next (none, qs) i j e = j qs e ∙ i refl

  -- A search that finds no script leaves the parameters as they were, whatever it tried.
  pub resolve_segments-Restores :
      (segs : List Bytes) (dir : Bytes) → Restores (resolve_segments fs dir segs)
  unfolding resolve_segments
  resolve_segments-Restores [] dir = λ ps k n. refl
  resolve_segments-Restores (seg ∷ rest) dir =
      try_each-Restores (λ d. resolve_segments fs d rest) (seg ∷ rest) seg
        (fs.sort (candidates fs dir seg rest)) (resolve_segments-Restores rest)
