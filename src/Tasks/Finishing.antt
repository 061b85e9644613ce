-- ===== src/Tasks/Finishing.antt =====
-- internal/bridge/task.go: where the goroutines of the tasks come to rest, in whichever order they run.
use altclaw.Common.{
  ℕ, zero, suc, ◌+◌, ◌≤◌, true, Option, none, some, List, [], ◌∷◌, all, length, arith, ◌≡◌, ◌≢◌,
  refl,
}
use altclaw.Tasks.{Tasks, no_tasks, Event, step, and_then, run_all}
use altclaw.Tasks.Invariant.{step-IsBalanced, run_all-IsBalanced}
use altclaw.Tasks.Slots.{IsBalanced}
use altclaw.Tasks.Lift.{run_all-lift}
use altclaw.Tasks.Progress.{work_of, is_goroutine, step-work}
use altclaw.Tasks.Made.{IsMade, step-IsMade, no_tasks-IsMade}
use altclaw.Tasks.Settling.{unsettled-Enabled}

-- Each step of a goroutine takes from the work that is left.
steps-work :
    (fs : List Event) (s s' : Tasks)
    → all is_goroutine fs ≡ true
    → run_all fs s ≡ some s'
    → length fs + work_of s'.tasks ≤ work_of s.tasks
unfolding run_all
steps-work [] s s' g h = ground arith
steps-work (e ∷ fs) s s' g h = by_step (step e s) refl h (λ u. steps-work fs u s' (ground arith))
  where
    by_step :
        (o : Option Tasks)
        → step e s ≡ o
        → and_then o (run_all fs) ≡ some s'
        → ((u : Tasks) → run_all fs u ≡ some s' → length fs + work_of s'.tasks ≤ work_of u.tasks)
        → length (e ∷ fs) + work_of s'.tasks ≤ work_of s.tasks
    by_step none l k rest = absurd (ground arith)
    by_step (some u) l k rest = omega (arith, rest u k, step-work e s u (ground arith) l)

-- No goroutine can take a step.
abbrev pub IsAtRest : Tasks → Type 0
IsAtRest s = (e : Event) (u : Tasks) → is_goroutine e ≡ true → step e s ≢ some u

at_rest-work : (s : Tasks) → IsBalanced s → IsMade s → IsAtRest s → work_of s.tasks ≡ 0
at_rest-work s b m r = by_work (work_of s.tasks) refl
  where
    by_work : (w : ℕ) → work_of s.tasks ≡ w → w ≡ 0
    by_work zero e = refl
    by_work (suc w) e =
        let (ev, u, g, h) = unsettled-Enabled s b m (omega (arith, e)) in absurd (r ev u g h)

-- From every state that the script can reach, and in whichever order the goroutines run from there:
-- when they come to rest, all tasks are settled; and they do so after at most two steps for each task
-- that waited and one for each that ran.
pub run_all-finishes :
    (es fs : List Event) (s s' : Tasks)
    → run_all es no_tasks ≡ some s
    → all is_goroutine fs ≡ true
    → run_all fs s ≡ some s'
    → IsAtRest s'
    → (work_of s'.tasks ≡ 0) × (length fs ≤ work_of s.tasks)
run_all-finishes es fs s s' h g k r =
    let b = run_all-lift IsBalanced step-IsBalanced fs s s' k (run_all-IsBalanced es s h) in
    let m =
      run_all-lift IsMade step-IsMade fs s s' k
        (run_all-lift IsMade step-IsMade es no_tasks s h no_tasks-IsMade) in
    (at_rest-work s' b m r, omega (arith, steps-work fs s s' g k))
