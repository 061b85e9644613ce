-- ===== src/Tasks/Settling.antt =====
-- The tasks of a queue cannot block each other for good.
use altclaw.Common.{
  ℕ, zero, suc, ◌+◌, ◌≤◌, ◌<◌, true, false, Option, none, some, List, [], ◌∷◌, ◌&&◌, if◌then◌else◌,
  length, get_elem?, map, all, All-get_elem?, sum_by, le-sum_by, counted, bytes_eq, arith, ◌≡◌,
  refl, ap, ◌∙◌, some-inj, lt→ltb, ◌≢◌,
}
use altclaw.Tasks.{
  value, Phase, waiting, running, settled, Channel, Task, Tasks, no_tasks, move, set_held,
  take_slot, acquire, start_phase, finish_phase, start, finish, release, Event, starts, finishes,
  step, run_all,
}
use altclaw.Tasks.Invariant.{step-IsBalanced, run_all-IsBalanced}
use altclaw.Tasks.Slots.{is_running, running_on, IsSound, IsBalanced}
use altclaw.Tasks.Lift.{run_all-lift}
use altclaw.Tasks.Frame.{place}
use altclaw.Tasks.Progress.{work, work_of, is_goroutine, step-work}
use altclaw.Tasks.Made.{is_made, IsMade, step-IsMade, no_tasks-IsMade}

-- A step that a goroutine can take.
abbrev pub Enabled : Tasks → Type 0
Enabled s = (e : Event) × (s' : Tasks) × (is_goroutine e ≡ true) × (step e s ≡ some s')

start-Enabled :
    (i : ℕ) (t : Task) (s s' : Tasks)
    → get_elem? s.tasks i ≡ some t
    → t.phase ≡ waiting
    → acquire t.channel s ≡ some s'
    → Enabled s
unfolding step start start_phase
start-Enabled i t s s' l p a = (starts i, move i t running s', refl, rw (l, p, a))

finish-Enabled :
    (i : ℕ) (t : Task) (s : Tasks) → get_elem? s.tasks i ≡ some t → t.phase ≡ running → Enabled s
unfolding step finish finish_phase
finish-Enabled i t s l p =
    (finishes i (value []), move i t (settled (value [])) (release t.channel s), refl, rw (l, p))

running_on-zero :
    (j : ℕ) (ts : List Task)
    → sum_by (λ t. if is_running t.phase then 1 else 0) ts ≡ 0
    → running_on j ts ≡ 0
running_on-zero j [] h = refl
running_on-zero j (t ∷ ts) h = ground (arith, running_on-zero j ts)

not_running :
    (i : ℕ) (t : Task) (ts : List Task)
    → get_elem? ts i ≡ some t
    → sum_by (λ t. if is_running t.phase then 1 else 0) ts ≡ 0
    → is_running t.phase ≡ false
not_running i t ts g h =
    ground (arith, le-sum_by (λ t. if is_running t.phase then 1 else 0) ts i t g)

no_gap {ℓ} : {A : Type ℓ} (xs : List A) (j : ℕ) → j < length xs → get_elem? xs j ≢ none
no_gap [] j h e = absurd (omega arith)
no_gap (x ∷ xs) zero h e = ground (arith)
no_gap (x ∷ xs) (suc j) h e = no_gap xs j (omega arith) e

made_channel :
    (n i j : ℕ) (t : Task) (ts : List Task)
    → get_elem? ts i ≡ some t
    → t.channel ≡ some j
    → all (is_made n) (map place ts) ≡ true
    → j < n
made_channel n i j t [] l c h = absurd (ground arith)
made_channel n zero j t (u ∷ ts) l c h = head u.channel (ap (λ x. x.channel) (some-inj u t l) ∙ c) h
  where
    head :
        (o : Option ℕ)
        → o ≡ some j
        → (is_made n (u.name, o) && all (is_made n) (map place ts)) ≡ true
        → j < n
    head none e a = absurd (ground arith)
    head (some k) e a = ground arith
made_channel n (suc i) j t (u ∷ ts) l c h = made_channel n i j t ts l c (ground arith)

waiting-Enabled :
    (i : ℕ) (t : Task) (s : Tasks)
    → IsBalanced s
    → IsMade s
    → get_elem? s.tasks i ≡ some t
    → t.phase ≡ waiting
    → ((j : ℕ) → running_on j s.tasks ≡ 0)
    → Enabled s
unfolding acquire take_slot
waiting-Enabled i t s b m l p z = by_channel t.channel refl
  where
    slot :
        (j : ℕ) (ch : Channel)
        → t.channel ≡ some j
        → get_elem? s.channels j ≡ some ch
        → ch.held < ch.limit
        → acquire t.channel s ≡ some (set_held j ch (ch.held + 1) s)
    slot j ch c f free = rw (c, f, lt→ltb ch.held ch.limit free)

    by_found :
        (j : ℕ) (o : Option Channel) → t.channel ≡ some j → get_elem? s.channels j ≡ o → Enabled s
    by_found j none c f =
        absurd (no_gap s.channels j (made_channel (length s.channels) i j t s.tasks l c m.made) f)
    by_found j (some ch) c f =
        let sound : IsSound ch = All-get_elem? IsSound s.channels j ch b.sound f in
        start-Enabled i t s (set_held j ch (ch.held + 1) s) l p
          (slot j ch c f (ground (arith, b.balanced j, z j, f, sound.1)))

    by_channel : (c : Option ℕ) → t.channel ≡ c → Enabled s
    by_channel none c = start-Enabled i t s s l p (rw c)
    by_channel (some j) c = by_found j (get_elem? s.channels j) c refl

-- While a task is not settled, some goroutine can take a step.
pub unsettled-Enabled : (s : Tasks) → IsBalanced s → IsMade s → 0 < work_of s.tasks → Enabled s
unsettled-Enabled s b m h = by_runs (sum_by runs_now s.tasks) refl
  where
    runs_now : Task → ℕ
    runs_now t = if is_running t.phase then 1 else 0

    by_phase :
        (t : Task) (p : Phase) (i : ℕ)
        → t.phase ≡ p
        → get_elem? s.tasks i ≡ some t
        → 0 < work t.phase
        → sum_by runs_now s.tasks ≡ 0
        → Enabled s
    by_phase t waiting i e l w z = waiting-Enabled i t s b m l e (λ j. running_on-zero j s.tasks z)
    by_phase t running i e l w z = finish-Enabled i t s l e
    by_phase t (settled r) i e l w z = absurd (ground arith)

    by_runs : (n : ℕ) → sum_by runs_now s.tasks ≡ n → Enabled s
    by_runs zero z =
        let (i, t, l, w) = counted (λ t. work t.phase) s.tasks h in by_phase t t.phase i refl l w z
    by_runs (suc n) z =
        let (i, t, l, w) = counted runs_now s.tasks (omega (arith, z)) in
        by_running i t l t.phase refl w
      where
        by_running :
            (i : ℕ) (t : Task)
            → get_elem? s.tasks i ≡ some t
            → (p : Phase) → t.phase ≡ p
            → 0 < runs_now t
            → Enabled s
        by_running i t l running e w = finish-Enabled i t s l e
        by_running i t l waiting e w = absurd (ground arith)
        by_running i t l (settled r) e w = absurd (ground arith)

-- A way of the goroutines to settle every task.
abbrev Settles : Tasks → Type 0
Settles s =
    (es : List Event) × (s' : Tasks) × (all is_goroutine es ≡ true)
    × (run_all es s ≡ some s')
    × (work_of s'.tasks ≡ 0)

Settles-at_once : (s : Tasks) → work_of s.tasks ≡ 0 → Settles s
unfolding run_all
Settles-at_once s e = ([], s, refl, refl, e)

Settles-later :
    (e : Event) (s u : Tasks) → is_goroutine e ≡ true → step e s ≡ some u → Settles u → Settles s
unfolding run_all
Settles-later e s u g h (es, s', gs, r, z) = (e ∷ es, s', ground (arith, g, gs), rw (h, r), z)

settles : (n : ℕ) (s : Tasks) → work_of s.tasks ≤ n → IsBalanced s → IsMade s → Settles s
settles zero s le b m = Settles-at_once s (omega (arith, le))
settles (suc n) s le b m = by_work (work_of s.tasks) refl (settles n)
  where
    by_work :
        (w : ℕ)
        → work_of s.tasks ≡ w
        → ((u : Tasks) → work_of u.tasks ≤ n → IsBalanced u → IsMade u → Settles u)
        → Settles s
    by_work zero e rest = Settles-at_once s e
    by_work (suc w) e rest =
        let (ev, u, g, h) = unsettled-Enabled s b m (omega (arith, e)) in
        Settles-later ev s u g h (
          rest u (omega (arith, step-work ev s u g h, le)) (step-IsBalanced ev s u h b)
            (step-IsMade ev s u h m))

-- From every state that the script can reach, some steps of the goroutines alone settle all tasks.
pub run_all-settles :
    (es : List Event) (s : Tasks)
    → run_all es no_tasks ≡ some s
    → (fs : List Event) × (s' : Tasks) × (all is_goroutine fs ≡ true)
      × (run_all fs s ≡ some s')
      × (work_of s'.tasks ≡ 0)
run_all-settles es s h =
    settles (work_of s.tasks) s (omega arith) (run_all-IsBalanced es s h)
      (run_all-lift IsMade step-IsMade es no_tasks s h no_tasks-IsMade)
