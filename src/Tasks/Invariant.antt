-- ===== src/Tasks/Invariant.antt =====
-- The slots of the channels are those of the tasks that run.
use altclaw.Common.{
  ℕ, ◌+◌, ◌-◌, ◌≤◌, ◌<◌, true, false, Option, none, some, List, codes, if◌then◌else◌, get_elem?,
  set, le-sum_by, All-get_elem?, bytes_eq, arith, ◌≡◌, refl, subst, some-inj,
}
use altclaw.Tasks.{
  Outcome, failed, Phase, waiting, running, settled, Channel, Task, Tasks, no_tasks, Answer,
  unknown_handle, undefined, undefined, move_some, move, set_held, take_slot, free_slot, acquire,
  release, start_phase, abort_phase, finish_phase, start, abort, finish, done_phase, done_task,
  done, cancel_task, cancel, Event, runs, starts, aborts, finishes, polls, cancels, stops, step,
  run_all,
}
use altclaw.Tasks.Lift.{with_task-lift, run_all-lift}
use altclaw.Tasks.Slots.{
  uses_slot, IsSound, IsBalanced, no_tasks-IsBalanced, run_task-IsBalanced, same_slot-IsBalanced,
  slot-IsBalanced,
}

module _ (i : ℕ) (t : Task) (s s' : Tasks) (there : get_elem? s.tasks i ≡ some t)
    (b : IsBalanced s) where
  start_slot-IsBalanced :
      (k : ℕ) (f : Option Channel)
      → t.channel ≡ some k
      → t.phase ≡ waiting
      → get_elem? s.channels k ≡ f
      → move_some i t running (take_slot f k s) ≡ some s'
      → IsBalanced s'
  unfolding take_slot
  start_slot-IsBalanced k none c p l e = absurd (ground arith)
  start_slot-IsBalanced k (some ch) c p l e =
      let free : ch.held < ch.limit = ground arith in
      let same : move i t running (set_held k ch (ch.held + 1) s) ≡ s' = ground arith in
      subst IsBalanced same (
        slot-IsBalanced i k (ch.held + 1) t (record t { phase = running }) ch s there l
          (λ j. ground (arith, c, p)) (omega (arith, free)) b)

  start_channel-IsBalanced :
      (c : Option ℕ)
      → t.channel ≡ c
      → t.phase ≡ waiting
      → move_some i t running (acquire c s) ≡ some s'
      → IsBalanced s'
  unfolding acquire
  start_channel-IsBalanced none c p e = subst IsBalanced (some-inj _ s' e) (
      same_slot-IsBalanced i t (record t { phase = running }) s there (λ j. ground (arith, c, p)) b)
  start_channel-IsBalanced (some k) c p e =
      start_slot-IsBalanced k (get_elem? s.channels k) c p refl e

  start_phase-IsBalanced : (p : Phase) → t.phase ≡ p → start_phase p i t s ≡ some s' → IsBalanced s'
  unfolding start_phase
  start_phase-IsBalanced waiting p e = start_channel-IsBalanced t.channel refl p e
  start_phase-IsBalanced running p e = absurd (ground arith)
  start_phase-IsBalanced (settled r) p e = absurd (ground arith)

  abort_phase-IsBalanced :
      (p : Phase) (c : Option ℕ) → t.phase ≡ p → abort_phase p c i t s ≡ some s' → IsBalanced s'
  unfolding abort_phase
  abort_phase-IsBalanced waiting (some k) p e =
      let o = settled (failed (codes "context canceled")) in
      subst IsBalanced (ground arith)
        (same_slot-IsBalanced i t (record t { phase = o }) s there (λ j. ground (arith, p)) b)
  abort_phase-IsBalanced waiting none p e = absurd (ground arith)
  abort_phase-IsBalanced running c p e = absurd (ground arith)
  abort_phase-IsBalanced (settled r) c p e = absurd (ground arith)

  release_slot-IsBalanced :
      (r : Outcome) (k : ℕ) (f : Option Channel)
      → t.channel ≡ some k
      → t.phase ≡ running
      → get_elem? s.channels k ≡ f
      → IsBalanced (move i t (settled r) (free_slot f k s))
  unfolding free_slot
  release_slot-IsBalanced r k none c p l =
      absurd (ground (arith, c, p, b.balanced k, le-sum_by (uses_slot k) s.tasks i t there))
  release_slot-IsBalanced r k (some ch) c p l =
      let held : 1 ≤ ch.held =
        ground (arith, c, p, b.balanced k, le-sum_by (uses_slot k) s.tasks i t there) in
      let (le, _) = All-get_elem? IsSound s.channels k ch b.sound l in
      slot-IsBalanced i k (ch.held - 1) t (record t { phase = settled r }) ch s there l
        (λ j. ground (arith, c, p, held)) (omega (arith, le)) b

  release-IsBalanced :
      (r : Outcome) (c : Option ℕ)
      → t.channel ≡ c
      → t.phase ≡ running
      → IsBalanced (move i t (settled r) (release c s))
  unfolding release
  release-IsBalanced r none c p =
      same_slot-IsBalanced i t (record t { phase = settled r }) s there (λ j. ground (arith, c, p))
        b
  release-IsBalanced r (some k) c p = release_slot-IsBalanced r k (get_elem? s.channels k) c p refl

  finish_phase-IsBalanced :
      (r : Outcome) (p : Phase) → t.phase ≡ p → finish_phase p r i t s ≡ some s' → IsBalanced s'
  unfolding finish_phase
  finish_phase-IsBalanced r waiting p e = absurd (ground arith)
  finish_phase-IsBalanced r running p e =
      subst IsBalanced (some-inj _ s' e) (release-IsBalanced r t.channel refl p)
  finish_phase-IsBalanced r (settled _) p e = absurd (ground arith)

handle-IsBalanced :
    (i : ℕ) (t u : Task) (s : Tasks)
    → get_elem? s.tasks i ≡ some t
    → u.phase ≡ t.phase
    → u.channel ≡ t.channel
    → IsBalanced s
    → IsBalanced (record s { tasks = set s.tasks i u })
handle-IsBalanced i t u s g p c b = same_slot-IsBalanced i t u s g (λ j. rw (p, c)) b

done-IsBalanced : (i : ℕ) (s : Tasks) → IsBalanced s → IsBalanced (done i s).1
unfolding done done_task done_phase
done-IsBalanced i s b = by_task (get_elem? s.tasks i) refl
  where
    by_phase :
        (t : Task) (p : Phase) → get_elem? s.tasks i ≡ some t → IsBalanced (done_phase p i t s).1
    by_phase t waiting l = b
    by_phase t running l = b
    by_phase t (settled r) l =
        handle-IsBalanced i t (record t { has_handle = false }) s l refl refl b

    by_task : (o : Option Task) → get_elem? s.tasks i ≡ o → IsBalanced (done_task o i s).1
    by_task none l = b
    by_task (some t) l =
        elim t.has_handle
          as (λ h.
            IsBalanced
              (if◌then◌else◌ {A = Answer × Tasks} h (done_phase t.phase i t s)
                (unknown_handle i, s)).1) [ true ↦ by_phase t t.phase l | false ↦ b ]

cancel-IsBalanced : (i : ℕ) (s : Tasks) → IsBalanced s → IsBalanced (cancel i s).1
unfolding cancel cancel_task
cancel-IsBalanced i s b = by_task (get_elem? s.tasks i) refl
  where
    by_task : (o : Option Task) → get_elem? s.tasks i ≡ o → IsBalanced (cancel_task o i s).1
    by_task none l = b
    by_task (some t) l =
        elim t.has_handle
          as (λ h.
            IsBalanced
              (if◌then◌else◌ {A = Answer × Tasks} h
                (undefined, record s { tasks = set s.tasks i (record t { is_cancelled = true }) })
                (unknown_handle i, s)).1) [
                  | true ↦ handle-IsBalanced i t (record t { is_cancelled = true }) s l refl refl b
                  | false ↦ b
                ]

pub step-IsBalanced : (e : Event) (s s' : Tasks) → step e s ≡ some s' → IsBalanced s → IsBalanced s'
unfolding step start abort finish
step-IsBalanced (runs opts) s s' h b =
    subst IsBalanced (some-inj _ s' h) (run_task-IsBalanced opts s b)
step-IsBalanced (starts i) s s' h b =
    with_task-lift IsBalanced (λ t. start_phase t.phase i t s) i s s'
      (λ t g. start_phase-IsBalanced i t s s' g b t.phase refl) h
step-IsBalanced (aborts i) s s' h b =
    with_task-lift IsBalanced (λ t. abort_phase t.phase t.channel i t s) i s s'
      (λ t g. abort_phase-IsBalanced i t s s' g b t.phase t.channel refl) h
step-IsBalanced (finishes i r) s s' h b =
    with_task-lift IsBalanced (λ t. finish_phase t.phase r i t s) i s s'
      (λ t g. finish_phase-IsBalanced i t s s' g b r t.phase refl) h
step-IsBalanced (polls i) s s' h b = subst IsBalanced (some-inj _ s' h) (done-IsBalanced i s b)
step-IsBalanced (cancels i) s s' h b = subst IsBalanced (some-inj _ s' h) (cancel-IsBalanced i s b)
step-IsBalanced stops s s' h b =
    subst IsBalanced (some-inj _ s' h) (record { balanced = b.balanced; sound = b.sound })

pub run_all-IsBalanced : (es : List Event) (s : Tasks) → run_all es no_tasks ≡ some s → IsBalanced s
run_all-IsBalanced es s h =
    run_all-lift IsBalanced step-IsBalanced es no_tasks s h no_tasks-IsBalanced
