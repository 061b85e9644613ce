-- ===== src/ServerJs/Sorting.antt =====
-- What the search relies on of `sort.Slice`.
use altclaw.Common.{◌≤◌, List, [], ◌∷◌, bytes_eq, All, ◌↔◌}
use altclaw.ServerJs.{Candidate, priority}

-- What `sort.Slice` promises: the same candidates, by their priorities.
abbrev pub IsOrdered : List Candidate → Type 0
IsOrdered [] = Unit
IsOrdered (c ∷ cs) = All (λ d. priority c ≤ priority d) cs × IsOrdered cs

pub record IsSort (sort : List Candidate → List Candidate) : Type 1 where
  pub keeps : (P : Candidate → Type 0) (cs : List Candidate) → All P cs ↔ All P (sort cs)
  pub ordered : (cs : List Candidate) → IsOrdered (sort cs)
