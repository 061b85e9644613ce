-- ===== src/Cron/Chances.antt =====
-- What the operations do to the runs of a one-shot job: those that were and those still to come.
use altclaw.Common.{
  ℕ, ◌≤◌, Bool, true, false, Option, none, some, [], ◌∷◌, ◌++◌, Bytes, bytes_eq, nat_eq, ◌==◌, leb,
  if◌then◌else◌, get_elem?, lookup, remove, sum_by-set, sum_by-snoc, arith, ◌≡◌, refl, subst,
  some-inj, ap, ◌∙◌,
}
use altclaw.Cron.{
  Library, Job, Entry, Stage, ready, ran, over, Firing, Manager, fire, ScheduleError, schedule,
  entry_of, put_entry, delete_row, settle_add, save_row, add_job, new_job,
}
use altclaw.Cron.Steps.{
  drop_entry, stop_timer, remove_entry, remove_found, remove_job, recur_job, expire_timer,
  run_stage, delete_fired, finish_stage, with_firing, change_chats, save_updated, update_found,
}
use altclaw.Cron.Scheduling.{
  on_firing, chances, sum_by-remove, sum_by-expired, sum_by-change, schedule-chances,
}

delete_row-chances :
    (i id : ℕ) (ok : Bool) (s : Manager) → chances i (delete_row ok id s) ≡ chances i s
unfolding delete_row
delete_row-chances i id true s = refl
delete_row-chances i id false s = refl

remove_entry-chances :
    (i id : ℕ) (e : Entry) (s : Manager) → chances i (remove_entry e id s) ≤ chances i s
unfolding remove_entry
remove_entry-chances i id e s = by_flags (e.cron_id == 0) e.has_timer
  where
    by_flags :
        (c has : Bool)
        → chances i (
            drop_entry id (
              stop_timer has id (
                if◌then◌else◌ {A = Manager} c s
                  (record s { registered = remove e.cron_id s.registered }))))
          ≤ chances i s
    by_flags true true = omega (arith, sum_by-remove i id s.timers)
    by_flags true false = omega arith
    by_flags false true = omega (arith, sum_by-remove i id s.timers)
    by_flags false false = omega arith

pub remove_job-chances :
    (i id : ℕ) (ok : Bool) (s : Manager) → chances i (remove_job id ok s).1 ≤ chances i s
unfolding remove_job remove_found
remove_job-chances i id ok s = by_entry (lookup id s.entries)
  where
    by_entry : (o : Option Entry) → chances i (remove_found o id ok s).1 ≤ chances i s
    by_entry none = omega arith
    by_entry (some e) =
        omega
          (arith, delete_row-chances i id ok (remove_entry e id s), remove_entry-chances i id e s)

settle_add-chances :
    (i id : ℕ) (ok : Bool) (r : Option ScheduleError × Manager)
    → chances i (settle_add id ok r).1 ≡ chances i r.1
unfolding settle_add
settle_add-chances i id ok (none, s) = refl
settle_add-chances i id ok (some e, s) = delete_row-chances i id ok (drop_entry id s)

pub new_job-id :
    (lib : Library) (t : Option ℕ) (id chat_id : ℕ) (sched instructions : Bytes) (script : Bool)
    → (new_job lib t id chat_id sched instructions script).id ≡ id
new_job-id lib none id chat_id sched instructions script = refl
new_job-id lib (some t) id chat_id sched instructions script = refl

pub add_job-chances :
    (lib : Library) (i : ℕ) (job : Job) (ok : Bool) (s : Manager)
    → job.id ≡ s.next_id
    → chances i (add_job lib job ok s).1 ≤ chances i s
unfolding add_job save_row put_entry
add_job-chances lib i job ok s e =
    let u : Manager = put_entry job (save_row job s) in
    ground (
      arith,
      e,
      schedule-chances lib i (entry_of job) u,
      settle_add-chances i job.id ok (schedule lib (entry_of job) u),
    )

pub recur_job-chances :
    (i : ℕ) (o : Option Job) (s s' : Manager) → recur_job o s ≡ some s' → chances i s' ≡ chances i s
unfolding recur_job
recur_job-chances i none s s' h = absurd (ground arith)
recur_job-chances i (some job) s s' h =
    subst (λ u. chances i u ≡ chances i s) (some-inj _ s' h) (ground arith)

pub expire_timer-chances :
    (i id : ℕ) (o : Option (ℕ × Job)) (s s' : Manager)
    → lookup id s.timers ≡ o
    → expire_timer o id s ≡ some s'
    → chances i s' ≤ chances i s
unfolding expire_timer
expire_timer-chances i id none s s' l h = absurd (ground arith)
expire_timer-chances i id (some (t, job)) s s' l h = by_due (leb t s.now) h
  where
    next : Manager
    next = record s { timers = remove id s.timers; firing = s.firing ++ fire job ∷ [] }

    by_due :
        (b : Bool)
        → if◌then◌else◌ {A = Option Manager} b (some next) none ≡ some s'
        → chances i s' ≤ chances i s
    by_due false e = absurd (ground arith)
    by_due true e =
        subst (λ u. chances i u ≤ chances i s) (some-inj next s' e)
          (ground (
            arith,
            sum_by-expired i id t job s.timers l,
            sum_by-snoc (on_firing i) s.firing (fire job),
          ))

pub with_firing-lift :
    (P : Manager → Type 0) (next : Firing → Option Manager) (k : ℕ) (s s' : Manager)
    → ((f : Firing) → get_elem? s.firing k ≡ some f → next f ≡ some s' → P s')
    → with_firing next (get_elem? s.firing k) ≡ some s'
    → P s'
with_firing-lift P next k s s' keep h = by_firing (get_elem? s.firing k) refl h
  where
    by_firing : (o : Option Firing) → get_elem? s.firing k ≡ o → with_firing next o ≡ some s' → P s'
    by_firing none l e = absurd (ground arith)
    by_firing (some f) l e = keep f l e

pub run_stage-chances :
    (i k : ℕ) (f : Firing) (st : Stage) (s s' : Manager)
    → get_elem? s.firing k ≡ some f
    → f.stage ≡ st
    → run_stage st k f s ≡ some s'
    → chances i s' ≤ chances i s
unfolding run_stage
run_stage-chances i k f ready s s' l p h =
    subst (λ u. chances i u ≤ chances i s) (some-inj _ s' h)
      (ground (arith, p, sum_by-set (on_firing i) s.firing k f (record f { stage = ran }) l))
run_stage-chances i k f ran s s' l p h = absurd (ground arith)
run_stage-chances i k f over s s' l p h = absurd (ground arith)

delete_fired-chances :
    (i id : ℕ) (o : Option Entry) (ok : Bool) (s : Manager)
    → chances i (delete_fired o id ok s) ≡ chances i s
unfolding delete_fired
delete_fired-chances i id none ok s = refl
delete_fired-chances i id (some e) ok s = delete_row-chances i id ok (drop_entry id s)

delete_fired-firing :
    (id : ℕ) (o : Option Entry) (ok : Bool) (s : Manager)
    → (delete_fired o id ok s).firing ≡ s.firing
unfolding delete_fired delete_row
delete_fired-firing id none ok s = refl
delete_fired-firing id (some e) true s = refl
delete_fired-firing id (some e) false s = refl

pub finish_stage-chances :
    (i k : ℕ) (f : Firing) (st : Stage) (ok : Bool) (s s' : Manager)
    → get_elem? s.firing k ≡ some f
    → finish_stage st k f ok s ≡ some s'
    → chances i s' ≤ chances i s
unfolding finish_stage
finish_stage-chances i k f ready ok s s' l h = absurd (ground arith)
finish_stage-chances i k f ran ok s s' l h =
    let d : Manager = delete_fired (lookup f.job_id s.entries) f.job_id ok s in
    subst (λ u. chances i u ≤ chances i s) (some-inj _ s' h)
      (ground (
        arith,
        delete_fired-chances i f.job_id (lookup f.job_id s.entries) ok s,
        sum_by-set (on_firing i) d.firing k f (record f { stage = over })
            (ap (λ fs. get_elem? fs k)
                (delete_fired-firing f.job_id (lookup f.job_id s.entries) ok s)
              ∙ l),
      ))
finish_stage-chances i k f over ok s s' l h = absurd (ground arith)

pub change_chats-chances :
    (i c : ℕ) (p : Job → Bool) (s : Manager) → chances i (change_chats p c s) ≡ chances i s
unfolding change_chats
change_chats-chances i c p s = omega (arith, sum_by-change i p c s.timers)

pub update_found-chances :
    (i : ℕ) (o : Option Entry) (id c : ℕ) (ok : Bool) (s : Manager)
    → chances i (update_found o id c ok s) ≡ chances i s
unfolding update_found save_updated
update_found-chances i none id c ok s = refl
update_found-chances i (some e) id c true s = change_chats-chances i c (λ job. job.id == id) s
update_found-chances i (some e) id c false s = change_chats-chances i c (λ job. job.id == id) s
