-- ===== src/Cron.antt =====
-- internal/cron/cron.go: the manager of the scheduled jobs, with the rows of its store.
pub mod Scheduling
pub mod Steps
pub mod Adding
pub mod Chances
pub mod Once
pub mod Examples
use altclaw.Common.{
  ℕ, zero, suc, ◌+◌, ◌≤◌, ◌<◌, Bool, true, false, Option, none, some, List, [], ◌∷◌, ◌++◌, ◌&&◌,
  ◌||◌, not, Bytes, bytes_eq, nat_eq, codes, ◌==◌, ltb, leb, if◌then◌else◌, length, get_elem?, set,
  map, lookup, insert, remove,
}

-- What the manager uses of the packages time and cron: the end of a duration from a time, an absolute
-- time by a layout, a time in RFC 3339 and back, and whether an expression is accepted.
pub record Library : Type 0 where
  pub parse_duration : Bytes → ℕ → Option ℕ
  pub parse_in_location : Bytes → Bytes → Option ℕ
  pub format : ℕ → Bytes
  pub parse : Bytes → Option ℕ
  pub accepts : Bytes → Bool

abbrev date_formats : List Bytes
date_formats =
    codes "2006-01-02T15:04:05Z07:00"
    ∷ codes "2006-01-02T15:04:05"
    ∷ codes "2006-01-02 15:04:05"
    ∷ codes "2006-01-02 15:04"
    ∷ codes "2006-01-02"
    ∷ []

-- `config.CronJob`
pub record Job : Type 0 where
  pub id : ℕ
  pub chat_id : ℕ
  pub schedule : Bytes
  pub instructions : Bytes
  pub one_shot : Bool
  pub script : Bool
  pub fire_at : Bytes

-- `jobEntry`; a `cron_id` of 0 is none.
pub record Entry : Type 0 where
  pub job : Job
  pub cron_id : ℕ
  pub has_timer : Bool

pub data Stage : Type 0 where
  ready : Stage
  ran : Stage
  over : Stage

-- A goroutine in `fireAndRemove` with its arguments.
pub record Firing : Type 0 where
  pub job_id : ℕ
  pub chat_id : ℕ
  pub instructions : Bytes
  pub script : Bool
  pub stage : Stage

-- A call of the runner.
pub record Run : Type 0 where
  pub job_id : ℕ
  pub chat_id : ℕ
  pub instructions : Bytes
  pub script : Bool
  pub is_one_shot : Bool

-- `Manager` with the store's rows, the timers that are active with the times they expire at, the
-- functions that the scheduler has, the goroutines, and the calls of the runner so far. The job that a
-- timer or a function has captured is that of the entry: what changes the one changes the other.
pub record Manager : Type 0 where
  pub entries : List (ℕ × Entry)
  pub rows : List (ℕ × Job)
  pub next_id : ℕ
  pub timers : List (ℕ × (ℕ × Job))
  pub registered : List (ℕ × Job)
  pub next_cron_id : ℕ
  pub firing : List Firing
  pub runs : List Run
  pub now : ℕ
  pub is_stopped : Bool

abbrev pub no_jobs : Manager
no_jobs = record {
  entries = [];
  rows = [];
  next_id = 1;
  timers = [];
  registered = [];
  next_cron_id = 1;
  firing = [];
  runs = [];
  now = 0;
  is_stopped = false;
}

pub data ScheduleError : Type 0 where
  missing_fire_at : ScheduleError
  bad_fire_at : ScheduleError
  bad_expression : ScheduleError

abbrev pub fire : Job → Firing
fire job = record {
  job_id = job.id;
  chat_id = job.chat_id;
  instructions = job.instructions;
  script = job.script;
  stage = ready;
}

-- A one-shot whose time is known: at once in a goroutine if it is past, or with a timer.
unfoldable pub schedule_at : ℕ → Entry → Manager → Manager
schedule_at time e s =
    if leb time s.now then record s { firing = s.firing ++ fire e.job ∷ [] } else record s {
      timers = (e.job.id, (time, e.job)) ∷ s.timers;
      entries = insert e.job.id (record e { has_timer = true }) s.entries;
    }

unfoldable pub schedule_fire_at : Option ℕ → Entry → Manager → Option ScheduleError × Manager
unfolding schedule_at
schedule_fire_at none e s = (some bad_fire_at, s)
schedule_fire_at (some time) e s = (none, schedule_at time e s)

unfoldable pub register : Entry → Manager → Manager
register e s = record s {
  registered = (s.next_cron_id, e.job) ∷ s.registered;
  next_cron_id = s.next_cron_id + 1;
  entries = insert e.job.id (record e { cron_id = s.next_cron_id }) s.entries;
}

abbrev pub entry_of : Job → Entry
entry_of job = record { job = job; cron_id = 0; has_timer = false }

unfoldable pub put_entry : Job → Manager → Manager
put_entry job s = record s { entries = insert job.id (entry_of job) s.entries }

module _ (lib : Library) where
  abbrev parse_formats : List Bytes → Bytes → Option ℕ
  parse_formats [] s = none
  parse_formats (f ∷ fs) s = or_else (lib.parse_in_location f s) (parse_formats fs s)
    where
      or_else : Option ℕ → Option ℕ → Option ℕ
      or_else none o = o
      or_else (some t) o = some t

  -- `parseDateTime`
  unfoldable pub parse_date_time : Bytes → Option ℕ
  parse_date_time s = parse_formats date_formats s

  unfoldable pub schedule_one_shot : Bytes → Entry → Manager → Option ScheduleError × Manager
  unfolding schedule_fire_at
  schedule_one_shot [] e s = (some missing_fire_at, s)
  schedule_one_shot (c ∷ cs) e s = schedule_fire_at (lib.parse (c ∷ cs)) e s

  unfoldable pub schedule_kind : Bool → Entry → Manager → Option ScheduleError × Manager
  unfolding schedule_one_shot register
  schedule_kind true e s = schedule_one_shot e.job.fire_at e s
  schedule_kind false e s =
      if lib.accepts e.job.schedule then (none, register e s) else (some bad_expression, s)

  -- `schedule`
  unfoldable pub schedule : Entry → Manager → Option ScheduleError × Manager
  unfolding schedule_kind
  schedule e s = schedule_kind e.job.one_shot e s

  -- The time of a one-shot, from a duration or a date.
  abbrev pub fire_time_of_date : Option ℕ → Option ℕ → Option ℕ
  fire_time_of_date (some t) d = some t
  fire_time_of_date none d = d

  unfoldable pub fire_time : Bytes → ℕ → Option ℕ
  unfolding parse_date_time
  fire_time sched now = fire_time_of_date (lib.parse_duration sched now) (parse_date_time sched)

  abbrev pub new_job : Option ℕ → ℕ → ℕ → Bytes → Bytes → Bool → Job
  new_job none id chat_id sched instructions script = record {
    id = id;
    chat_id = chat_id;
    schedule = sched;
    instructions = instructions;
    one_shot = false;
    script = script;
    fire_at = [];
  }
  new_job (some t) id chat_id sched instructions script = record {
    id = id;
    chat_id = chat_id;
    schedule = sched;
    instructions = instructions;
    one_shot = true;
    script = script;
    fire_at = lib.format t;
  }

-- What the manager's methods return.
pub data Answer : Type 0 where
  added : ℕ → Answer
  not_saved : Answer
  invalid_schedule : ScheduleError → Answer
  not_found : ℕ → Answer
  removed : Answer
  not_deleted : Answer

unfoldable pub delete_row : Bool → ℕ → Manager → Manager
delete_row ok id s = if ok then record s { rows = remove id s.rows } else s

-- An error of `schedule` takes the entry and the row back.
unfoldable pub settle_add : ℕ → Bool → Option ScheduleError × Manager → Answer × Manager
unfolding delete_row
settle_add id deletes (none, s) = (added id, s)
settle_add id deletes (some e, s) =
    (invalid_schedule e, delete_row deletes id (record s { entries = remove id s.entries }))

-- The store gives each new row the next number.
unfoldable pub save_row : Job → Manager → Manager
save_row job s = record s { rows = insert job.id job s.rows; next_id = s.next_id + 1 }

module _ (lib : Library) where
  unfoldable pub add_job : Job → Bool → Manager → Answer × Manager
  unfolding settle_add save_row schedule put_entry
  add_job job deletes s =
      settle_add job.id deletes (schedule lib (entry_of job) (put_entry job (save_row job s)))

  -- `Add`; the store gives the job its ID. `saves` and `deletes` are whether the store's calls succeed.
  unfoldable pub add : ℕ → Bytes → Bytes → Bool → Bool → Bool → Manager → Answer × Manager
  unfolding add_job fire_time
  add chat_id sched instructions script saves deletes s =
      if saves
      then add_job
          (new_job lib (fire_time lib sched s.now) s.next_id chat_id sched instructions script)
          deletes s
      else (not_saved, s)
