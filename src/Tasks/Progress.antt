-- ===== src/Tasks/Progress.antt =====
-- internal/bridge/task.go: each step of a task's goroutine leaves less work to be done.
use altclaw.Common.{
  ℕ, ◌<◌, Bool, true, false, Option, none, some, List, codes, get_elem?, set, sum_by, sum_by-set,
  arith, ◌≡◌, refl, ap, sym, ◌∙◌, some-inj,
}
use altclaw.Tasks.{
  Outcome, failed, Phase, waiting, running, settled, Channel, Task, Tasks, move_some, take_slot,
  free_slot, acquire, release, start_phase, abort_phase, finish_phase, start, abort, finish, Event,
  runs, starts, aborts, finishes, polls, cancels, stops, step,
}
use altclaw.Tasks.Lift.{with_task-lift}

-- How many steps are left to a task's goroutine.
abbrev pub work : Phase → ℕ
work waiting = 2
work running = 1
work (settled _) = 0

abbrev pub work_of : List Task → ℕ
work_of ts = sum_by (λ t. work t.phase) ts

abbrev pub is_goroutine : Event → Bool
is_goroutine (starts _) = true
is_goroutine (aborts _) = true
is_goroutine (finishes _ _) = true
is_goroutine _ = false

acquire-tasks : (c : Option ℕ) (s s' : Tasks) → acquire c s ≡ some s' → s'.tasks ≡ s.tasks
unfolding acquire take_slot
acquire-tasks none s s' e = ground arith
acquire-tasks (some j) s s' e = by_channel (get_elem? s.channels j) e
  where
    by_channel : (o : Option Channel) → take_slot o j s ≡ some s' → s'.tasks ≡ s.tasks
    by_channel none h = absurd (ground arith)
    by_channel (some ch) h = ground arith

release-tasks : (c : Option ℕ) (s : Tasks) → (release c s).tasks ≡ s.tasks
unfolding release free_slot
release-tasks none s = refl
release-tasks (some j) s =
    elim (get_elem? s.channels j) as (λ o. (free_slot o j s).tasks ≡ s.tasks) [
      | none ↦ refl
      | some ch ↦ refl
    ]

module _ (i : ℕ) (t : Task) (s s' : Tasks) (there : get_elem? s.tasks i ≡ some t) where
  work_of-move :
      (u : Task)
      → s'.tasks ≡ set s.tasks i u
      → work u.phase < work t.phase
      → work_of s'.tasks < work_of s.tasks
  work_of-move u e lt = ground (arith, sum_by-set (λ x. work x.phase) s.tasks i t u there, e, lt)

  start_phase-work :
      (p : Phase) → t.phase ≡ p → start_phase p i t s ≡ some s' → work_of s'.tasks < work_of s.tasks
  unfolding start_phase
  start_phase-work waiting p e = by_slot (acquire t.channel s) refl e
    where
      by_slot :
          (o : Option Tasks)
          → acquire t.channel s ≡ o
          → move_some i t running o ≡ some s'
          → work_of s'.tasks < work_of s.tasks
      by_slot none a h = absurd (ground arith)
      by_slot (some u) a h =
          let same : u.tasks ≡ s.tasks = acquire-tasks t.channel s u a in
          work_of-move (record t { phase = running })
            (ap (λ x. x.tasks) (sym (some-inj _ s' h))
              ∙ ap (λ ts. set ts i (record t { phase = running })) same)
            (ground (arith, p))
  start_phase-work running p e = absurd (ground arith)
  start_phase-work (settled r) p e = absurd (ground arith)

  abort_phase-work :
      (p : Phase) (c : Option ℕ)
      → t.phase ≡ p
      → abort_phase p c i t s ≡ some s'
      → work_of s'.tasks < work_of s.tasks
  unfolding abort_phase
  abort_phase-work waiting (some j) p e =
      let off : Task = record t { phase = settled (failed (codes "context canceled")) } in
      let same : record s { tasks = set s.tasks i off } ≡ s' = ground arith in
      work_of-move off (ap (λ x. x.tasks) (sym same)) (ground (arith, p))
  abort_phase-work waiting none p e = absurd (ground arith)
  abort_phase-work running c p e = absurd (ground arith)
  abort_phase-work (settled r) c p e = absurd (ground arith)

  finish_phase-work :
      (p : Phase) (r : Outcome)
      → t.phase ≡ p
      → finish_phase p r i t s ≡ some s'
      → work_of s'.tasks < work_of s.tasks
  unfolding finish_phase
  finish_phase-work waiting r p e = absurd (ground arith)
  finish_phase-work running r p e =
      work_of-move (record t { phase = settled r })
        (ap (λ x. x.tasks) (sym (some-inj _ s' e))
          ∙ ap (λ ts. set ts i (record t { phase = settled r })) (release-tasks t.channel s))
        (ground (arith, p))
  finish_phase-work (settled _) r p e = absurd (ground arith)

pub step-work :
    (e : Event) (s s' : Tasks)
    → is_goroutine e ≡ true
    → step e s ≡ some s'
    → work_of s'.tasks < work_of s.tasks
unfolding step start abort finish
step-work (runs opts) s s' g h = absurd (ground arith)
step-work (starts i) s s' g h =
    with_task-lift (λ u. work_of u.tasks < work_of s.tasks) (λ t. start_phase t.phase i t s) i s s'
      (λ t l. start_phase-work i t s s' l t.phase refl) h
step-work (aborts i) s s' g h =
    with_task-lift (λ u. work_of u.tasks < work_of s.tasks)
      (λ t. abort_phase t.phase t.channel i t s) i s s'
      (λ t l. abort_phase-work i t s s' l t.phase t.channel refl) h
step-work (finishes i r) s s' g h =
    with_task-lift (λ u. work_of u.tasks < work_of s.tasks) (λ t. finish_phase t.phase r i t s) i s
      s' (λ t l. finish_phase-work i t s s' l t.phase r refl) h
step-work (polls i) s s' g h = absurd (ground arith)
step-work (cancels i) s s' g h = absurd (ground arith)
step-work stops s s' g h = absurd (ground arith)
