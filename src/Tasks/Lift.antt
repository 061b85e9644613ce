-- ===== src/Tasks/Lift.antt =====
-- To step at a task is to step at the one that is there; what every step keeps holds after all.
use altclaw.Common.{
  ℕ, Bool, true, Option, none, some, List, [], ◌∷◌, get_elem?, all, bytes_eq, arith, ◌≡◌, refl,
  subst, some-inj,
}
use altclaw.Tasks.{Task, Tasks, with_task, Event, step, run_all, and_then}

-- To step at a task is to step at the task that is there.
pub with_task-lift :
    (P : Tasks → Type 0) (f : Task → Option Tasks) (i : ℕ) (s s' : Tasks)
    → ((t : Task) → get_elem? s.tasks i ≡ some t → f t ≡ some s' → P s')
    → with_task f (get_elem? s.tasks i) ≡ some s'
    → P s'
with_task-lift P f i s s' h = by_task (get_elem? s.tasks i) refl
  where
    by_task : (o : Option Task) → get_elem? s.tasks i ≡ o → with_task f o ≡ some s' → P s'
    by_task none l e = absurd (ground arith)
    by_task (some t) l e = h t l e

-- What every step of some kind keeps holds after some steps of the kind.
pub run_all-lift_if {ℓ} :
    (P : Tasks → Type ℓ) (g : Event → Bool)
    → ((e : Event) (s s' : Tasks) → g e ≡ true → step e s ≡ some s' → P s → P s')
    → (es : List Event) (s s' : Tasks) → all g es ≡ true
    → run_all es s ≡ some s'
    → P s
    → P s'
unfolding run_all
run_all-lift_if P g keep [] s s' a h p = subst P (some-inj s s' h) p
run_all-lift_if P g keep (e ∷ es) s s' a h p =
    by_step (step e s) refl h (λ u. run_all-lift_if P g keep es u s' (ground arith))
  where
    by_step :
        (o : Option Tasks)
        → step e s ≡ o
        → and_then o (run_all es) ≡ some s'
        → ((u : Tasks) → run_all es u ≡ some s' → P u → P s')
        → P s'
    by_step none l h rest = absurd (ground arith)
    by_step (some u) l h rest = rest u h (keep e s u (ground arith) l p)

pub run_all-lift {ℓ} :
    (P : Tasks → Type ℓ)
    → ((e : Event) (s s' : Tasks) → step e s ≡ some s' → P s → P s')
    → (es : List Event) (s s' : Tasks) → run_all es s ≡ some s'
    → P s
    → P s'
run_all-lift P keep es s s' =
    run_all-lift_if P (λ _. true) (λ e u u' _. keep e u u') es s s' (all_true es)
  where
    all_true : (es : List Event) → all (λ _. true) es ≡ true
    all_true [] = refl
    all_true (e ∷ es) = all_true es
