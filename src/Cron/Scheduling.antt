-- ===== src/Cron/Scheduling.antt =====
-- What the scheduling of a job adds to its runs.
use altclaw.Common.{
  ℕ, ◌+◌, ◌≤◌, Bool, true, false, Option, none, some, List, [], ◌∷◌, ◌&&◌, Bytes, bytes_eq, nat_eq,
  ◌==◌, ltb, if◌then◌else◌, map, lookup, remove, sum_by, sum_by-snoc, arith, ◌≡◌, refl, some-inj,
  ap,
}
use altclaw.Cron.{
  Library, Job, Entry, Stage, ready, ran, over, Firing, Run, Manager, fire, ScheduleError,
  schedule_at, schedule_fire_at, schedule_one_shot, schedule_kind, bad_expression, register,
  schedule,
}
use altclaw.Cron.Steps.{change_timer}

abbrev pub is_ready : Stage → Bool
is_ready ready = true
is_ready ran = false
is_ready over = false

abbrev pub on_timer : ℕ → ℕ × (ℕ × Job) → ℕ
on_timer i (_, (_, job)) = if job.id == i then 1 else 0

abbrev pub on_firing : ℕ → Firing → ℕ
on_firing i f = if f.job_id == i && is_ready f.stage then 1 else 0

abbrev pub one_shot_of : ℕ → Run → ℕ
one_shot_of i r = if r.job_id == i && r.is_one_shot then 1 else 0

-- How often the runner was called for the one-shot job.
abbrev pub one_shot_runs : ℕ → List Run → ℕ
one_shot_runs i rs = sum_by (one_shot_of i) rs

-- 1 while the ID is not given.
abbrev pub unborn : ℕ → ℕ → ℕ
unborn i next = if ltb i next then 0 else 1

-- The calls that were made for the job, and those that are still to come.
abbrev pub chances : ℕ → Manager → ℕ
chances i s =
    sum_by (on_timer i) s.timers
    + sum_by (on_firing i) s.firing
    + one_shot_runs i s.runs
    + unborn i s.next_id

pub sum_by-remove :
    (i id : ℕ) (ts : List (ℕ × (ℕ × Job)))
    → sum_by (on_timer i) (remove id ts) ≤ sum_by (on_timer i) ts
unfolding remove
sum_by-remove i id [] = omega arith
sum_by-remove i id ((k, v) ∷ ts) = ground (arith, sum_by-remove i id ts)

pub sum_by-expired :
    (i id t : ℕ) (job : Job) (ts : List (ℕ × (ℕ × Job)))
    → lookup id ts ≡ some (t, job)
    → sum_by (on_timer i) (remove id ts) + (if job.id == i then 1 else 0) ≤ sum_by (on_timer i) ts
unfolding remove lookup
sum_by-expired i id t job [] h = absurd (ground arith)
sum_by-expired i id t job ((k, (u, j)) ∷ ts) h =
    by_key (k == id) refl h (sum_by-expired i id t job ts) (sum_by-remove i id ts)
  where
    by_key :
        (b : Bool)
        → (k == id) ≡ b
        → (if b then some (u, j) else lookup id ts) ≡ some (t, job)
        → (lookup id ts ≡ some (t, job)
            → sum_by (on_timer i) (remove id ts) + (if job.id == i then 1 else 0)
              ≤ sum_by (on_timer i) ts)
        → sum_by (on_timer i) (remove id ts) ≤ sum_by (on_timer i) ts
        → sum_by (on_timer i) (if b then remove id ts else (k, (u, j)) ∷ remove id ts)
            + (if job.id == i then 1 else 0)
          ≤ sum_by (on_timer i) ((k, (u, j)) ∷ ts)
    by_key true e h rest le =
        let same : j ≡ job = ap (λ p. p.1) (some-inj (u, j) (t, job) h) in
        ground (arith, le, ap (λ x. x.id) same)
    by_key false e h rest le = omega (arith, rest h)

pub sum_by-change :
    (i : ℕ) (p : Job → Bool) (c : ℕ) (ts : List (ℕ × (ℕ × Job)))
    → sum_by (on_timer i) (map (change_timer p c) ts) ≡ sum_by (on_timer i) ts
sum_by-change i p c [] = refl
sum_by-change i p c (t ∷ ts) = ground (arith, sum_by-change i p c ts)

pub schedule_at-chances :
    (i t : ℕ) (e : Entry) (s : Manager)
    → chances i (schedule_at t e s) ≤ chances i s + (if e.job.id == i then 1 else 0)
unfolding schedule_at
schedule_at-chances i t e s = ground (arith, sum_by-snoc (on_firing i) s.firing (fire e.job))

pub schedule-chances :
    (lib : Library) (i : ℕ) (e : Entry) (s : Manager)
    → chances i (schedule lib e s).1 ≤ chances i s + (if e.job.id == i then 1 else 0)
unfolding schedule schedule_kind register
schedule-chances lib i e s = by_kind e.job.one_shot
  where
    by_time :
        (o : Option ℕ)
        → chances i (schedule_fire_at o e s).1 ≤ chances i s + (if e.job.id == i then 1 else 0)
    by_time none = omega arith
    by_time (some t) = schedule_at-chances i t e s

    by_fire_at :
        (t : Bytes)
        → chances i (schedule_one_shot lib t e s).1 ≤ chances i s + (if e.job.id == i then 1 else 0)
    by_fire_at [] = omega arith
    by_fire_at (c ∷ cs) = by_time (lib.parse (c ∷ cs))

    by_kind :
        (b : Bool)
        → chances i (schedule_kind lib b e s).1 ≤ chances i s + (if e.job.id == i then 1 else 0)
    by_kind true = by_fire_at e.job.fire_at
    by_kind false =
        elim (lib.accepts e.job.schedule)
          as (λ b.
            chances i
              (if◌then◌else◌ {A = Option ScheduleError × Manager} b (none, register e s)
                (some bad_expression, s)).1
            ≤ chances i s + (if e.job.id == i then 1 else 0)) [
              | true ↦ omega arith
              | false ↦ omega arith
            ]
