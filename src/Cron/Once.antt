-- ===== src/Cron/Once.antt =====
-- A one-shot job is run at most once.
use altclaw.Common.{
  ℕ, ◌≤◌, Bool, true, false, Option, none, some, List, [], ◌∷◌, not, Bytes, bytes_eq, nat_eq, ◌==◌,
  if◌then◌else◌, all, lookup, arith, ◌≡◌, refl, subst, some-inj,
}
use altclaw.Cron.{Library, Manager, no_jobs, new_job, fire_time, add}
use altclaw.Cron.Steps.{
  recur_job, recur, expire, run_stage, finish_stage, run_one, finish_one, clear_chat_id,
  update_job_chat_id, stop, Event, adds, removes, recurs, expires, runs_one, finishes, clears_chat,
  updates_chat, passes, stops, restarts, step, and_then, run_all,
}
use altclaw.Cron.Chances.{
  remove_job-chances, add_job-chances, new_job-id, recur_job-chances, expire_timer-chances,
  with_firing-lift, run_stage-chances, finish_stage-chances, change_chats-chances,
  update_found-chances,
}
use altclaw.Cron.Scheduling.{one_shot_runs, chances}

add-chances :
    (lib : Library) (i chat_id : ℕ) (sched instructions : Bytes) (script saves deletes : Bool)
    (s : Manager)
    → chances i (add lib chat_id sched instructions script saves deletes s).1 ≤ chances i s
unfolding add
add-chances lib i chat_id sched instructions script false deletes s = omega arith
add-chances lib i chat_id sched instructions script true deletes s =
    let t : Option ℕ = fire_time lib sched s.now in
    add_job-chances lib i (new_job lib t s.next_id chat_id sched instructions script) deletes s
      (new_job-id lib t s.next_id chat_id sched instructions script)

stop-chances : (i : ℕ) (s : Manager) → chances i (stop s) ≤ chances i s
unfolding stop
stop-chances i s =
    elim s.is_stopped
      as (λ b.
        chances i (if◌then◌else◌ {A = Manager} b s (record s { timers = []; is_stopped = true }))
        ≤ chances i s) [ true ↦ omega arith | false ↦ omega arith ]

recur-chances : (i c : ℕ) (s s' : Manager) → recur c s ≡ some s' → chances i s' ≡ chances i s
unfolding recur
recur-chances i c s s' h = by_stopped s.is_stopped h
  where
    by_stopped :
        (b : Bool)
        → if◌then◌else◌ {A = Option Manager} b none (recur_job (lookup c s.registered) s) ≡ some s'
        → chances i s' ≡ chances i s
    by_stopped true e = absurd (ground arith)
    by_stopped false e = recur_job-chances i (lookup c s.registered) s s' e

abbrev pub is_restart : Event → Bool
is_restart restarts = true
is_restart _ = false

-- What a step says when it gives an answer with the state.
same_le :
    (i : ℕ) (s u s' : Manager)
    → some u ≡ some s'
    → chances i u ≤ chances i s
    → chances i s' ≤ chances i s
same_le i s u s' e le = subst (λ v. chances i v ≤ chances i s) (some-inj u s' e) le

step-chances :
    (lib : Library) (i : ℕ) (e : Event) (s s' : Manager)
    → is_restart e ≡ false
    → step lib e s ≡ some s'
    → chances i s' ≤ chances i s
unfolding step expire run_one finish_one clear_chat_id update_job_chat_id
step-chances lib i (adds c sched ins script saves deletes) s s' n h =
    same_le i s _ s' h (add-chances lib i c sched ins script saves deletes s)
step-chances lib i (removes id ok) s s' n h = same_le i s _ s' h (remove_job-chances i id ok s)
step-chances lib i (recurs c) s s' n h = omega (arith, recur-chances i c s s' h)
step-chances lib i (expires id) s s' n h =
    expire_timer-chances i id (lookup id s.timers) s s' refl h
step-chances lib i (runs_one k) s s' n h =
    with_firing-lift (λ u. chances i u ≤ chances i s) (λ f. run_stage f.stage k f s) k s s'
      (λ f l. run_stage-chances i k f f.stage s s' l refl) h
step-chances lib i (finishes k ok) s s' n h =
    with_firing-lift (λ u. chances i u ≤ chances i s) (λ f. finish_stage f.stage k f ok s) k s s'
      (λ f l. finish_stage-chances i k f f.stage ok s s' l) h
step-chances lib i (clears_chat c) s s' n h =
    same_le i s _ s' h (omega (arith, change_chats-chances i 0 (λ job. job.chat_id == c) s))
step-chances lib i (updates_chat id c ok) s s' n h =
    same_le i s _ s' h (omega (arith, update_found-chances i (lookup id s.entries) id c ok s))
step-chances lib i (passes d) s s' n h = same_le i s _ s' h (omega arith)
step-chances lib i stops s s' n h = same_le i s _ s' h (stop-chances i s)
step-chances lib i restarts s s' n h = absurd (ground arith)

-- What every step of some kind keeps holds after some steps of the kind.
pub run_all-lift :
    (lib : Library) (P : Manager → Type 0) (g : Event → Bool)
    → ((e : Event) (s s' : Manager) → g e ≡ true → step lib e s ≡ some s' → P s → P s')
    → (es : List Event) (s s' : Manager) → all g es ≡ true
    → run_all lib es s ≡ some s'
    → P s
    → P s'
unfolding run_all
run_all-lift lib P g keep [] s s' a h p = subst P (some-inj s s' h) p
run_all-lift lib P g keep (e ∷ es) s s' a h p =
    by_step (step lib e s) refl h (λ u. run_all-lift lib P g keep es u s' (ground arith))
  where
    by_step :
        (o : Option Manager)
        → step lib e s ≡ o
        → and_then o (run_all lib es) ≡ some s'
        → ((u : Manager) → run_all lib es u ≡ some s' → P u → P s')
        → P s'
    by_step none l h rest = absurd (ground arith)
    by_step (some u) l h rest = rest u h (keep e s u (ground arith) l p)

-- While the process is not restarted, the runner is called at most once for a one-shot job, however
-- the calls of the manager's methods, the timers and the goroutines follow each other, and whether
-- the store's calls succeed or not.
pub run_all-once :
    (lib : Library) (i : ℕ) (es : List Event) (s : Manager)
    → all (λ e. not (is_restart e)) es ≡ true
    → run_all lib es no_jobs ≡ some s
    → one_shot_runs i s.runs ≤ 1
run_all-once lib i es s g h =
    let bound : chances i s ≤ 1 =
      run_all-lift lib (λ u. chances i u ≤ 1) (λ e. not (is_restart e))
        (λ e u u' n l le. omega (arith, step-chances lib i e u u' (ground (arith, n)) l, le)) es
        no_jobs s g h (ground arith) in
    omega (arith, bound)
