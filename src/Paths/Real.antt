-- ===== src/Paths/Real.antt =====
-- internal/bridge/path.go: which path a given one stands for, said without the functions that find it.
use altclaw.Common.{
  Bool, true, false, some, List, [], ◌∷◌, ◌++◌, ◌||◌, Bytes, codes, text_eq, has_prefix,
  if◌then◌else◌, reverse, reverse-cons, reverse-reverse, ◌↔◌, ◌⊎◌, inl, inr, ◌≡◌, ◌≢◌, refl, ap,
  sym, ◌∙◌, some-inj,
}
use altclaw.Paths.{
  Components, Resolved, resolved, missing, unreadable, Files, split, pop, clean_one, clean_onto,
  absolute, parent, base, beside, resolve_new, real_path, real_workspace,
}

-- One component of a path, from a directory on.
abbrev pub go_to : Components → Bytes → Components
go_to dir p =
    if text_eq p [] || text_eq p (codes ".")
    then dir
    else if text_eq p (codes "..")
    then parent dir
    else dir ++ p ∷ []

-- The path that is reached from a directory, component by component.
pub walk : Components → List Bytes → Components
walk dir [] = dir
walk dir (p ∷ ps) = walk (go_to dir p) ps

-- Where a text leads from the workspace, or from the root if it begins with a slash.
abbrev pub led_to : Components → Bytes → Components
led_to workspace path = walk (if has_prefix path (codes "/") then [] else workspace) (split path)

parent-reverse : (done : Components) → parent (reverse done) ≡ reverse (pop done)
parent-reverse [] = refl
parent-reverse (x ∷ done) = ap parent (reverse-cons x done) ∙ parent-snoc (reverse done) x
  where
    parent-snoc : (xs : Components) (x : Bytes) → parent (xs ++ x ∷ []) ≡ xs
    parent-snoc [] x = refl
    parent-snoc (y ∷ []) x = refl
    parent-snoc (y ∷ z ∷ xs) x = ap (λ ys. y ∷ ys) (parent-snoc (z ∷ xs) x)

clean_one-go_to :
    (done : Components) (p : Bytes) → reverse (clean_one done p) ≡ go_to (reverse done) p
clean_one-go_to done p = by_tests (text_eq p [] || text_eq p (codes ".")) (text_eq p (codes ".."))
  where
    by_tests :
        (x y : Bool)
        → reverse (if x then done else if y then pop done else p ∷ done) ≡ (
            if x then reverse done else if y then parent (reverse done) else reverse done ++ p ∷ [])
    by_tests true y = refl
    by_tests false true = sym (parent-reverse done)
    by_tests false false = reverse-cons p done

clean_onto-walk :
    (done : Components) (ps : List Bytes) → clean_onto done ps ≡ walk (reverse done) ps
unfolding clean_onto walk
clean_onto-walk done [] = refl
clean_onto-walk done (p ∷ ps) =
    clean_onto-walk (clean_one done p) ps ∙ ap (λ d. walk d ps) (clean_one-go_to done p)

pub absolute-led_to :
    (workspace : Components) (path : Bytes) → absolute workspace path ≡ led_to workspace path
unfolding absolute
absolute-led_to workspace path =
    elim (has_prefix path (codes "/"))
      as (λ b.
        (if b then clean_onto [] (split path) else clean_onto (reverse workspace) (split path))
        ≡ walk (if b then [] else workspace) (split path)) [
          | true ↦ clean_onto-walk [] (split path)
          | false ↦
              clean_onto-walk (reverse workspace) (split path)
              ∙ ap (λ d. walk d (split path)) (reverse-reverse workspace)
        ]

module _ (f : Files) where
  -- A path with its links resolved, or as it is where that fails.
  abbrev pub IsSettled : Components → Components → Type 0
  IsSettled q p =
      (f.eval_symlinks q ≡ resolved p)
      ⊎ (((x : Components) → f.eval_symlinks q ≢ resolved x) × (p ≡ q))

  -- A path that is not there, through its directory if that is.
  abbrev IsNew : Components → Components → Type 0
  IsNew path p =
      ((d : Components) × (f.eval_symlinks (parent path) ≡ resolved d) × (p ≡ d ++ base path))
      ⊎ ((f.eval_symlinks (parent path) ≡ missing) × (p ≡ path))

  -- The real path of a path: resolved, or through its directory if it is not there, or as it is if the
  -- directory is not there either.
  abbrev pub IsReal : Components → Components → Type 0
  IsReal path p =
      (f.eval_symlinks path ≡ resolved p) ⊎ ((f.eval_symlinks path ≡ missing) × IsNew path p)

  resolved-inj : (x y : Components) → resolved x ≡ resolved y → x ≡ y
  resolved-inj x y e = cc

  pub real_workspace-IsSettled : (q : Components) → IsSettled q (real_workspace f q)
  unfolding real_workspace
  real_workspace-IsSettled q = by_eval (f.eval_symlinks q) refl
    where
      by_eval : (r : Resolved) → f.eval_symlinks q ≡ r → IsSettled q (real_workspace f q)
      by_eval (resolved p) e = inl (rw e refl)
      by_eval missing e = inr (λ x h. absurd (cc), rw e refl)
      by_eval unreadable e = inr (λ x h. absurd (cc), rw e refl)

  pub IsSettled-unique : (q p : Components) → IsSettled q p → real_workspace f q ≡ p
  unfolding real_workspace
  IsSettled-unique q p (inl e) = rw e refl
  IsSettled-unique q p (inr (none_found, same)) = by_eval (f.eval_symlinks q) refl
    where
      by_eval : (r : Resolved) → f.eval_symlinks q ≡ r → real_workspace f q ≡ p
      by_eval (resolved x) e = absurd (none_found x e)
      by_eval missing e = rw e (sym same)
      by_eval unreadable e = rw e (sym same)

  beside_lem :
      (path p : Components) → (beside (f.eval_symlinks (parent path)) path ≡ some p) ↔ IsNew path p
  beside_lem path p = (λ e. found (f.eval_symlinks (parent path)) refl e, given)
    where
      found :
          (r : Resolved) → f.eval_symlinks (parent path) ≡ r → beside r path ≡ some p → IsNew path p
      found (resolved d) h e = inl (d, h, sym (some-inj _ p e))
      found missing h e = inr (h, sym (some-inj _ p e))
      found unreadable h e = absurd (cc)

      given : IsNew path p → beside (f.eval_symlinks (parent path)) path ≡ some p
      given (inl (d, h, e)) = rw h (ap some (sym e))
      given (inr (h, e)) = rw h (ap some (sym e))

  pub real_path_iff : (path p : Components) → (real_path f path ≡ some p) ↔ IsReal path p
  unfolding real_path
  real_path_iff path p = (λ e. found (f.eval_symlinks path) refl e, given)
    where
      found :
          (r : Resolved) → f.eval_symlinks path ≡ r → resolve_new f r path ≡ some p → IsReal path p
      found (resolved q) h e = inl (h ∙ ap resolved (some-inj q p e))
      found missing h e = inr (h, (beside_lem path p).0 e)
      found unreadable h e = absurd (cc)

      given : IsReal path p → resolve_new f (f.eval_symlinks path) path ≡ some p
      given (inl h) = rw h refl
      given (inr (h, n)) = rw h ((beside_lem path p).1 n)
