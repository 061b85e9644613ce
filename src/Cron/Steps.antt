-- ===== src/Cron/Steps.antt =====
-- internal/cron/cron.go: what happens to the jobs after they are added, as steps in any order.
use altclaw.Common.{
  ℕ, ◌+◌, Bool, true, false, Option, none, some, List, [], ◌∷◌, ◌++◌, Bytes, bytes_eq, nat_eq, ◌==◌,
  leb, if◌then◌else◌, get_elem?, set, map, lookup, insert, remove,
}
use altclaw.Cron.{
  Library, Job, Entry, Stage, ready, ran, over, Firing, Manager, fire, schedule, entry_of,
  put_entry, Answer, not_found, removed, not_deleted, delete_row, add,
}

abbrev pub remove_registered : ℕ → Manager → Manager
remove_registered c s = if c == 0 then s else record s { registered = remove c s.registered }

abbrev pub stop_timer : Bool → ℕ → Manager → Manager
stop_timer has id s = if has then record s { timers = remove id s.timers } else s

abbrev pub drop_entry : ℕ → Manager → Manager
drop_entry id s = record s { entries = remove id s.entries }

unfoldable pub remove_entry : Entry → ℕ → Manager → Manager
remove_entry e id s = drop_entry id (stop_timer e.has_timer id (remove_registered e.cron_id s))

unfoldable pub remove_found : Option Entry → ℕ → Bool → Manager → Answer × Manager
unfolding remove_entry delete_row
remove_found none id deletes s = (not_found id, s)
remove_found (some e) id deletes s =
    (if deletes then removed else not_deleted, delete_row deletes id (remove_entry e id s))

-- `Remove`
unfoldable pub remove_job : ℕ → Bool → Manager → Answer × Manager
unfolding remove_found
remove_job id deletes s = remove_found (lookup id s.entries) id deletes s

-- The scheduler calls the function of a recurring job, which reads the chat now.
unfoldable pub recur_job : Option Job → Manager → Option Manager
recur_job none s = none
recur_job (some job) s = some (record s {
  runs =
      record {
        job_id = job.id;
        chat_id = job.chat_id;
        instructions = job.instructions;
        script = job.script;
        is_one_shot = false;
      }
      ∷ s.runs;
})

unfoldable pub recur : ℕ → Manager → Option Manager
unfolding recur_job
recur c s = if s.is_stopped then none else recur_job (lookup c s.registered) s

unfoldable pub expire_timer : Option (ℕ × Job) → ℕ → Manager → Option Manager
expire_timer none id s = none
expire_timer (some (time, job)) id s =
    if leb time s.now
    then some (record s { timers = remove id s.timers; firing = s.firing ++ fire job ∷ [] })
    else none

-- The timer of a one-shot expires.
unfoldable pub expire : ℕ → Manager → Option Manager
unfolding expire_timer
expire id s = expire_timer (lookup id s.timers) id s

abbrev stage : ℕ → Firing → Stage → Manager → Manager
stage k f st s = record s { firing = set s.firing k (record f { stage = st }) }

abbrev log_run : Firing → Manager → Manager
log_run f s = record s {
  runs =
      record {
        job_id = f.job_id;
        chat_id = f.chat_id;
        instructions = f.instructions;
        script = f.script;
        is_one_shot = true;
      }
      ∷ s.runs;
}

-- `fireAndRemove` up to the call of the runner.
unfoldable pub run_stage : Stage → ℕ → Firing → Manager → Option Manager
run_stage ready k f s = some (stage k f ran (log_run f s))
run_stage ran k f s = none
run_stage over k f s = none

unfoldable pub delete_fired : Option Entry → ℕ → Bool → Manager → Manager
unfolding delete_row
delete_fired none id deletes s = s
delete_fired (some e) id deletes s = delete_row deletes id (drop_entry id s)

-- `fireAndRemove` after the call of the runner.
unfoldable pub finish_stage : Stage → ℕ → Firing → Bool → Manager → Option Manager
unfolding delete_fired
finish_stage ready k f deletes s = none
finish_stage ran k f deletes s =
    some (stage k f over (delete_fired (lookup f.job_id s.entries) f.job_id deletes s))
finish_stage over k f deletes s = none

abbrev pub with_firing : (Firing → Option Manager) → Option Firing → Option Manager
with_firing next none = none
with_firing next (some f) = next f

unfoldable pub run_one : ℕ → Manager → Option Manager
unfolding run_stage
run_one k s = with_firing (λ f. run_stage f.stage k f s) (get_elem? s.firing k)

unfoldable pub finish_one : ℕ → Bool → Manager → Option Manager
unfolding finish_stage
finish_one k deletes s =
    with_firing (λ f. finish_stage f.stage k f deletes s) (get_elem? s.firing k)

-- The chat of the jobs that a test selects.
abbrev pub change_chat : (Job → Bool) → ℕ → Job → Job
change_chat selects chat_id job = if selects job then record job { chat_id = chat_id } else job

abbrev pub change_entry : (Job → Bool) → ℕ → ℕ × Entry → ℕ × Entry
change_entry selects chat_id (id, e) = (id, record e { job = change_chat selects chat_id e.job })

abbrev pub change_timer : (Job → Bool) → ℕ → ℕ × (ℕ × Job) → ℕ × (ℕ × Job)
change_timer selects chat_id (id, (time, job)) = (id, (time, change_chat selects chat_id job))

abbrev pub change_registered : (Job → Bool) → ℕ → ℕ × Job → ℕ × Job
change_registered selects chat_id (c, job) = (c, change_chat selects chat_id job)

unfoldable pub change_chats : (Job → Bool) → ℕ → Manager → Manager
change_chats selects chat_id s = record s {
  entries = map (change_entry selects chat_id) s.entries;
  timers = map (change_timer selects chat_id) s.timers;
  registered = map (change_registered selects chat_id) s.registered;
}

-- `ClearChatID`
unfoldable pub clear_chat_id : ℕ → Manager → Manager
unfolding change_chats
clear_chat_id chat_id s = change_chats (λ job. job.chat_id == chat_id) 0 s

unfoldable pub save_updated : Bool → ℕ → Job → Manager → Manager
save_updated saves id job s = if saves then record s { rows = insert id job s.rows } else s

unfoldable pub update_found : Option Entry → ℕ → ℕ → Bool → Manager → Manager
unfolding change_chats save_updated
update_found none id chat_id saves s = s
update_found (some e) id chat_id saves s =
    save_updated saves id (record e.job { chat_id = chat_id })
      (change_chats (λ job. job.id == id) chat_id s)

-- `UpdateJobChatID`
unfoldable pub update_job_chat_id : ℕ → ℕ → Bool → Manager → Manager
unfolding update_found
update_job_chat_id id chat_id saves s = update_found (lookup id s.entries) id chat_id saves s

-- `Stop`; only the first call does something.
unfoldable pub stop : Manager → Manager
stop s = if s.is_stopped then s else record s { timers = []; is_stopped = true }

-- The loop of `New` over the stored jobs; an error of `schedule` is only logged.
unfoldable pub load : Library → List (ℕ × Job) → Manager → Manager
unfolding schedule put_entry
load lib [] s = s
load lib ((id, job) ∷ rows) s = load lib rows (schedule lib (entry_of job) (put_entry job s)).1

-- `New` in a new process, of which only the store knows the jobs.
unfoldable pub restart : Library → Manager → Manager
unfolding load
restart lib s = load lib s.rows (record s {
  entries = [];
  timers = [];
  registered = [];
  next_cron_id = 1;
  firing = [];
  is_stopped = false;
})

pub data Event : Type 0 where
  adds : ℕ → Bytes → Bytes → Bool → Bool → Bool → Event
  removes : ℕ → Bool → Event
  recurs : ℕ → Event
  expires : ℕ → Event
  runs_one : ℕ → Event
  finishes : ℕ → Bool → Event
  clears_chat : ℕ → Event
  updates_chat : ℕ → ℕ → Bool → Event
  passes : ℕ → Event
  stops : Event
  restarts : Event

-- A step of a caller, of the scheduler, of a goroutine or of time; `none` if it cannot happen now.
unfoldable pub step : Library → Event → Manager → Option Manager
unfolding add remove_job recur expire run_one finish_one clear_chat_id update_job_chat_id stop
    restart
step lib (adds chat_id sched instructions script saves deletes) s =
    some (add lib chat_id sched instructions script saves deletes s).1
step lib (removes id deletes) s = some (remove_job id deletes s).1
step lib (recurs c) s = recur c s
step lib (expires id) s = expire id s
step lib (runs_one k) s = run_one k s
step lib (finishes k deletes) s = finish_one k deletes s
step lib (clears_chat chat_id) s = some (clear_chat_id chat_id s)
step lib (updates_chat id chat_id saves) s = some (update_job_chat_id id chat_id saves s)
step lib (passes d) s = some (record s { now = s.now + d })
step lib stops s = some (stop s)
step lib restarts s = some (restart lib s)

abbrev pub and_then : Option Manager → (Manager → Option Manager) → Option Manager
and_then none next = none
and_then (some s) next = next s

unfoldable pub run_all : Library → List Event → Manager → Option Manager
unfolding step
run_all lib [] s = some s
run_all lib (e ∷ es) s = and_then (step lib e s) (run_all lib es)
