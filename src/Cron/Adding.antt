-- ===== src/Cron/Adding.antt =====
-- What `Add` does when the schedule is not valid.
use altclaw.Common.{
  ℕ, ◌+◌, Bool, true, false, Option, none, some, List, [], ◌∷◌, Bytes, bytes_eq, nat_eq, ◌==◌,
  ==_iff, if◌then◌else◌, lookup, insert, remove, lookup-insert, lookup-remove, arith, ◌≡◌, refl,
  subst, ap, sym, ◌∙◌,
}
use altclaw.Cron.{
  Library, Job, Entry, Manager, ScheduleError, bad_expression, schedule_fire_at, schedule_one_shot,
  schedule_kind, register, schedule, entry_of, put_entry, invalid_schedule, delete_row, settle_add,
  save_row, add_job, new_job, fire_time, add,
}
use altclaw.Cron.Chances.{new_job-id}

-- An error of `schedule` comes before it changes anything.
schedule-error :
    (lib : Library) (e : Entry) (s : Manager) (x : ScheduleError)
    → (schedule lib e s).0 ≡ some x
    → (schedule lib e s).1 ≡ s
unfolding schedule schedule_kind schedule_one_shot schedule_fire_at
schedule-error lib e s x = by_kind e.job.one_shot
  where
    by_time : (o : Option ℕ) → (schedule_fire_at o e s).0 ≡ some x → (schedule_fire_at o e s).1 ≡ s
    by_time none h = refl
    by_time (some t) h = absurd (ground arith)

    by_fire_at :
        (t : Bytes) → (schedule_one_shot lib t e s).0 ≡ some x → (schedule_one_shot lib t e s).1 ≡ s
    by_fire_at [] h = refl
    by_fire_at (c ∷ cs) h = by_time (lib.parse (c ∷ cs)) h

    by_accepts :
        (b : Bool)
        → (if◌then◌else◌ {A = Option ScheduleError × Manager} b
            (none, register e s)
            (some bad_expression, s)).0
          ≡ some x
        → (if◌then◌else◌ {A = Option ScheduleError × Manager} b
            (none, register e s)
            (some bad_expression, s)).1
          ≡ s
    by_accepts true h = absurd (ground arith)
    by_accepts false h = refl

    by_kind : (b : Bool) → (schedule_kind lib b e s).0 ≡ some x → (schedule_kind lib b e s).1 ≡ s
    by_kind true h = by_fire_at e.job.fire_at h
    by_kind false h = by_accepts (lib.accepts e.job.schedule) h

settle_add-error :
    (id : ℕ) (ok : Bool) (x : ScheduleError) (o : Option ScheduleError) (s : Manager)
    → (settle_add id ok (o, s)).0 ≡ invalid_schedule x
    → o ≡ some x
unfolding settle_add
settle_add-error id ok x none s h = absurd (ground arith)
settle_add-error id ok x (some e) s h = ground arith

-- The state that is left when the entry and the row are taken back.
abbrev taken_back : Job → Manager → Manager
taken_back job s = record s {
  entries = remove job.id (insert job.id (entry_of job) s.entries);
  rows = remove job.id (insert job.id job s.rows);
  next_id = s.next_id + 1;
}

add_job-error :
    (lib : Library) (job : Job) (x : ScheduleError) (s : Manager)
    → (add_job lib job true s).0 ≡ invalid_schedule x
    → (add_job lib job true s).1 ≡ taken_back job s
unfolding add_job settle_add delete_row put_entry save_row
add_job-error lib job x s h =
    let u : Manager = put_entry job (save_row job s) in
    by_result (schedule lib (entry_of job) u).0 (schedule lib (entry_of job) u).1 h
      (schedule-error lib (entry_of job) u x)
  where
    by_result :
        (o : Option ScheduleError) (v : Manager)
        → (settle_add job.id true (o, v)).0 ≡ invalid_schedule x
        → (o ≡ some x → v ≡ put_entry job (save_row job s))
        → (settle_add job.id true (o, v)).1 ≡ taken_back job s
    by_result none v e same = absurd (ground arith)
    by_result (some y) v e same =
        ap (λ w. (settle_add job.id true (some y, w)).1)
          (same (settle_add-error job.id true x (some y) v e))

remove-insert :
    {V : Type 0} (id k : ℕ) (v : V) (m : List (ℕ × V))
    → lookup id m ≡ none
    → lookup k (remove id (insert id v m)) ≡ lookup k m
remove-insert id k v m h = by_key (id == k) refl
  where
    by_key : (b : Bool) → (id == k) ≡ b → lookup k (remove id (insert id v m)) ≡ lookup k m
    by_key true e =
        subst (λ j. lookup j (remove id (insert id v m)) ≡ lookup j m) ((==_iff id k).0 e)
          (ground (arith, lookup-remove id id (insert id v m), h))
    by_key false e = ground (arith, e, lookup-remove id k (insert id v m), lookup-insert id k v m)

-- The same jobs, looked up by ID, and the same work to come and done.
pub record SameJobs (s s' : Manager) : Type 0 where
  pub entries : (k : ℕ) → lookup k s'.entries ≡ lookup k s.entries
  pub rows : (k : ℕ) → lookup k s'.rows ≡ lookup k s.rows
  pub timers : s'.timers ≡ s.timers
  pub registered : s'.registered ≡ s.registered
  pub firing : s'.firing ≡ s.firing
  pub runs : s'.runs ≡ s.runs

taken_back-SameJobs :
    (job : Job) (s : Manager)
    → lookup job.id s.entries ≡ none
    → lookup job.id s.rows ≡ none
    → SameJobs s (taken_back job s)
taken_back-SameJobs job s e r = record {
  entries = λ k. remove-insert job.id k (entry_of job) s.entries e;
  rows = λ k. remove-insert job.id k job s.rows r;
  timers = refl;
  registered = refl;
  firing = refl;
  runs = refl;
}

-- If `Add` finds the schedule invalid, the ID that the store gave was free, and the store's calls
-- succeed, then the manager's and the store's jobs, the timers, the scheduler's functions, the
-- goroutines and the calls of the runner are as before.
pub add-invalid :
    (lib : Library) (chat_id : ℕ) (sched instructions : Bytes) (script : Bool) (s : Manager)
    (x : ScheduleError)
    → lookup s.next_id s.entries ≡ none
    → lookup s.next_id s.rows ≡ none
    → (add lib chat_id sched instructions script true true s).0 ≡ invalid_schedule x
    → SameJobs s (add lib chat_id sched instructions script true true s).1
unfolding add
add-invalid lib chat_id sched instructions script s x free_entry free_row h =
    let t : Option ℕ = fire_time lib sched s.now in
    let job : Job = new_job lib t s.next_id chat_id sched instructions script in
    let same : job.id ≡ s.next_id = new_job-id lib t s.next_id chat_id sched instructions script in
    subst (SameJobs s) (sym (add_job-error lib job x s h)) (
      taken_back-SameJobs job s (ap (λ k. lookup k s.entries) same ∙ free_entry)
        (ap (λ k. lookup k s.rows) same ∙ free_row))
