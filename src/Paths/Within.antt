-- ===== src/Paths/Within.antt =====
-- What `SanitizePath` accepts.
use altclaw.Common.{
  Bool, true, false, Option, none, some, List, [], ◌∷◌, ◌++◌, not, Bytes, codes, text_eq,
  text_eq_iff, has_prefix, map, if◌then◌else◌, ◌↔◌, arith, ◌≡◌, refl, ap, ap₂, sym, ◌∙◌, some-inj,
  subst,
}
use altclaw.Paths.{
  Components, Files, join, absolute, real_path, real_workspace, rel, dot_or, rel_text, Sanitized,
  within, invalid, escapes, check_within, sanitize_path,
}
use altclaw.Paths.Real.{
  led_to, absolute-led_to, IsSettled, IsReal, real_workspace-IsSettled, IsSettled-unique,
  real_path_iff,
}

-- The rest of a path below a root, if it is below it.
abbrev pub below : Components → Components → Option Components
below [] path = some path
below (b ∷ root) [] = none
below (b ∷ root) (p ∷ path) = if text_eq b p then below root path else none

-- Whether the rest begins with two dots, as a name such as ..foo does.
abbrev pub starts_up : Components → Bool
starts_up [] = false
starts_up (p ∷ ps) = has_prefix p (codes "..")

abbrev pub is_inside : Option Components → Bool
is_inside none = false
is_inside (some rest) = not (starts_up rest)

join-prefix :
    (p : Bytes) (ps : List Bytes)
    → has_prefix (join (p ∷ ps)) (codes "..") ≡ has_prefix p (codes "..")
unfolding join has_prefix
join-prefix p [] = refl
join-prefix [] (q ∷ ps) = refl
join-prefix (a ∷ []) (q ∷ ps) = ground arith
join-prefix (a ∷ b ∷ p) (q ∷ ps) = refl

dot_or-prefix : (ps : List Bytes) → has_prefix (dot_or ps) (codes "..") ≡ starts_up ps
unfolding has_prefix
dot_or-prefix [] = refl
dot_or-prefix (p ∷ ps) = join-prefix p ps

rel-below : (root path : Components) → not (starts_up (rel root path)) ≡ is_inside (below root path)
unfolding rel has_prefix
rel-below [] path = refl
rel-below (b ∷ root) [] = refl
rel-below (b ∷ root) (p ∷ path) =
    elim (text_eq b p)
      as (λ x.
        not (starts_up (if x then rel root path else map (λ _. codes "..") (b ∷ root) ++ p ∷ path))
        ≡ is_inside (if x then below root path else none)) [
          | true ↦ rel-below root path
          | false ↦ refl
        ]

inside_text :
    (root path : Components)
    → not (has_prefix (rel_text root path) (codes "..")) ≡ is_inside (below root path)
unfolding rel_text
inside_text root path = ap not (dot_or-prefix (rel root path)) ∙ rel-below root path

abbrev expected : Components → Option Components → Sanitized
expected root none = invalid
expected root (some p) = if is_inside (below root p) then within p else escapes

check_within-expected :
    (root : Components) (o : Option Components) → check_within root o ≡ expected root o
unfolding check_within
check_within-expected root none = refl
check_within-expected root (some p) =
    by_prefix (has_prefix (rel_text root p) (codes "..")) (inside_text root p)
  where
    by_prefix :
        (b : Bool)
        → not b ≡ is_inside (below root p)
        → (if b then escapes else within p)
          ≡ (if is_inside (below root p) then within p else escapes)
    by_prefix true e = ap (λ x. if x then within p else escapes) e
    by_prefix false e = ap (λ x. if x then within p else escapes) e

below-append : (root path rest : Components) → below root path ≡ some rest → path ≡ root ++ rest
below-append [] path rest e = some-inj path rest e
below-append (b ∷ root) [] rest e = absurd (ground arith)
below-append (b ∷ root) (p ∷ path) rest e =
    by_head (text_eq b p) refl e (below-append root path rest)
  where
    by_head :
        (x : Bool)
        → text_eq b p ≡ x
        → (if x then below root path else none) ≡ some rest
        → (below root path ≡ some rest → path ≡ root ++ rest)
        → p ∷ path ≡ b ∷ (root ++ rest)
    by_head true h k next = ap₂ (λ x xs. x ∷ xs) (sym ((text_eq_iff b p).0 h)) (next k)
    by_head false h k next = absurd (ground arith)

below_of-append : (root rest : Components) → below root (root ++ rest) ≡ some rest
below_of-append [] rest = refl
below_of-append (b ∷ root) rest = rw ((text_eq_iff b b).1 refl, below_of-append root rest)

-- A path that is given below the root, by a rest that does not begin with two dots.
abbrev pub IsBelow : Components → Components → Type 0
IsBelow root path = (rest : Components) × (path ≡ root ++ rest) × (starts_up rest ≡ false)

expected-IsBelow :
    (root p : Components) (o : Option Components)
    → expected root o ≡ within p
    → (o ≡ some p) × IsBelow root p
expected-IsBelow root p none e = absurd (ground arith)
expected-IsBelow root p (some q) e = by_below (below root q) refl e
  where
    by_below :
        (o : Option Components)
        → below root q ≡ o
        → (if is_inside o then within q else escapes) ≡ within p
        → (some q ≡ some p) × IsBelow root p
    by_below none h k = absurd (ground arith)
    by_below (some rest) h k =
        let same : q ≡ p = ground arith in
        (ap some same, (rest, sym same ∙ below-append root q rest h, ground arith))

IsBelow-expected : (root p : Components) → IsBelow root p → expected root (some p) ≡ within p
IsBelow-expected root p (rest, e, u) =
    ap (λ o. if is_inside o then within p else escapes)
      (ap (below root) e ∙ below_of-append root rest)
    ∙ ap (λ b. if not b then within p else escapes) u

-- `SanitizePath` accepts a path p for a text exactly if p lies, by a rest that does not begin with two
-- dots, below the workspace (with its links resolved where they can be), and p is what the text leads
-- to from the workspace, or from the root if it begins with a slash: with its links resolved; or, if
-- it is not there, its last component below its directory with links resolved; or, if the directory
-- is not there either, the unresolved path itself.
pub sanitize_path_iff :
    (f : Files) (workspace : Components) (path : Bytes) (p : Components)
    → (sanitize_path f workspace path ≡ within p) ↔ (
        IsReal f (led_to workspace path) p
        × (root : Components) × IsSettled f workspace root
        × IsBelow root p)
unfolding sanitize_path
sanitize_path_iff f workspace path p =
    let root : Components = real_workspace f workspace in
    let real : Option Components = real_path f (absolute workspace path) in
    let to : absolute workspace path ≡ led_to workspace path = absolute-led_to workspace path in
    (
      λ h.
          let (r, b) = expected-IsBelow root p real (sym (check_within-expected root real) ∙ h) in
          (
            subst (λ q. IsReal f q p) to ((real_path_iff f (absolute workspace path) p).0 r),
            root,
            real_workspace-IsSettled f workspace,
            b,
          ),
      λ (r, base, settled, b).
          ap (check_within root)
            ((real_path_iff f (absolute workspace path) p).1 (subst (λ q. IsReal f q p) (sym to) r))
          ∙ check_within-expected root (some p)
          ∙ IsBelow-expected root p
              (subst (λ q. IsBelow q p) (sym (IsSettled-unique f workspace base settled)) b),
    )

-- The test of a relative path for two dots.
pub is_within-IsBelow :
    (root path : Components)
    → not (has_prefix (rel_text root path) (codes "..")) ≡ true
    → IsBelow root path
is_within-IsBelow root path h = by_below (below root path) refl (sym (inside_text root path) ∙ h)
  where
    by_below :
        (o : Option Components) → below root path ≡ o → is_inside o ≡ true → IsBelow root path
    by_below none e k = absurd (cc)
    by_below (some rest) e k = (rest, below-append root path rest e, ground arith)
