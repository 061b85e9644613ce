-- ===== src/ServerJs/Exact.antt =====
-- A script with the very name of the last segment comes first.
use altclaw.Common.{
  ℕ, zero, suc, ◌≤◌, true, some, List, [], ◌∷◌, ◌++◌, Bytes, bytes_eq, arith, ◌≡◌, refl, ◌⊎◌, inl,
  inr, All, All-append, map, subst, sym,
}
use altclaw.ServerJs.Sorting.{IsSort, IsOrdered}
use altclaw.ServerJs.{
  Files, Params, DynamicEntry, Candidate, exact_file, exact_dir, dynamic_dir, dynamic_file,
  catch_all, dynamic_dirs, dynamic_files, list_catch_all, priority, script_of, candidates, attempt,
  try_each, resolve_segments,
}

-- Only the script of the segment has the first priority.
abbrev IsFirst : Bytes → Candidate → Type 0
IsFirst script c = (priority c ≡ 0) → (c ≡ exact_file script)

abbrev IsLater : Candidate → Type 0
IsLater c = 1 ≤ priority c

IsLater-map :
    (f : DynamicEntry → Candidate)
    → ((e : DynamicEntry) → IsLater (f e))
    → (es : List DynamicEntry) → All IsLater (map f es)
IsLater-map f h [] = tt
IsLater-map f h (e ∷ es) = (h e, IsLater-map f h es)

IsFirst-of_later : (script : Bytes) (cs : List Candidate) → All IsLater cs → All (IsFirst script) cs
IsFirst-of_later script [] h = tt
IsFirst-of_later script (c ∷ cs) h =
    ((λ z. absurd (omega (arith, h.0, z))), IsFirst-of_later script cs h.1)

IsLater-of_head :
    (c : Candidate) (cs : List Candidate)
    → IsLater c
    → All (λ d. priority c ≤ priority d) cs
    → All IsLater cs
IsLater-of_head c [] l h = tt
IsLater-of_head c (d ∷ ds) l h = (omega (arith, l, h.0), IsLater-of_head c ds l h.1)

zero_or_later : (n : ℕ) → (n ≡ 0) ⊎ (1 ≤ n)
zero_or_later zero = inl refl
zero_or_later (suc n) = inr (omega arith)

module _ (fs : Files) where
  candidates-tail :
      (dir seg : Bytes)
      → (cs : List Candidate) × (candidates fs dir seg [] ≡ exact_file (script_of fs dir seg) ∷ cs)
        × All IsLater cs
  unfolding candidates priority
  candidates-tail dir seg =
      let entries = fs.read_dir dir in
      let dirs = map dynamic_dir (dynamic_dirs fs dir entries) in
      let files = map dynamic_file (dynamic_files fs dir entries) in
      let rest = map catch_all (list_catch_all fs dir entries) in
      (
        exact_dir (fs.join dir seg) ∷ (dirs ++ (files ++ rest)),
        refl,
        (
          omega arith,
          All-append IsLater dirs (files ++ rest)
              (IsLater-map dynamic_dir (λ e. omega arith) (dynamic_dirs fs dir entries))
              (All-append IsLater files rest
                (IsLater-map dynamic_file (λ e. omega arith) (dynamic_files fs dir entries))
                (IsLater-map catch_all (λ e. omega arith) (list_catch_all fs dir entries))),
        ),
      )

  -- If the script of the last segment exists the search returns it and leaves the parameters alone,
  -- whatever else matches, if `sort.Slice` sorts the candidates by their priorities.
  pub resolve_segments-exact :
      (dir seg : Bytes) (ps : Params)
      → IsSort fs.sort
      → fs.file_exists (script_of fs dir seg) ≡ true
      → resolve_segments fs dir (seg ∷ []) ps ≡ (some (script_of fs dir seg), ps)
  unfolding resolve_segments try_each attempt priority
  resolve_segments-exact dir seg ps sorts there =
      let (cs, same, later) = candidates-tail dir seg in
      let first : All (IsFirst script) (candidates fs dir seg []) =
        subst (All (IsFirst script)) (sym same) ((λ _. refl), IsFirst-of_later script cs later) in
      by_sorted (fs.sort all) (sorts.ordered all) ((sorts.keeps (IsFirst script) all).0 first)
        (λ l. (subst (All IsLater) same ((sorts.keeps IsLater all).1 l)).0)
    where
      script : Bytes
      script = script_of fs dir seg

      all : List Candidate
      all = candidates fs dir seg []

      by_first :
          (c : Candidate)
          → c ≡ exact_file script
          → (cs : List Candidate)
          → try_each fs (λ d. resolve_segments fs d []) (seg ∷ []) seg (c ∷ cs) ps
            ≡ (some script, ps)
      by_first c e cs = rw e (rw there refl)

      by_sorted :
          (sorted : List Candidate)
          → IsOrdered sorted
          → All (IsFirst script) sorted
          → (All IsLater sorted → 1 ≤ 0)
          → try_each fs (λ d. resolve_segments fs d []) (seg ∷ []) seg sorted ps ≡ (some script, ps)
      by_sorted [] o f l = absurd (omega (arith, l tt))
      by_sorted (c ∷ cs) o f l = elim (zero_or_later (priority c)) [
        | inl z ↦ by_first c (f.0 z) cs
        | inr p ↦ absurd (omega (arith, l (p, IsLater-of_head c cs p o.0)))
      ]
