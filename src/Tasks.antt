-- ===== src/Tasks.antt =====
-- internal/bridge/task.go: the tasks that a script runs in engines of their own.
pub mod Placed
pub mod Slots
pub mod Lift
pub mod Made
pub mod Invariant
pub mod Frame
pub mod Kept
pub mod Queues
pub mod Progress
pub mod Settling
pub mod Finishing
pub mod Examples
use altclaw.Common.{
  ℕ, zero, suc, ◌+◌, ◌-◌, ◌≤◌, ◌<◌, Bool, true, false, Option, none, some, List, [], ◌∷◌, ◌++◌,
  ◌&&◌, ◌||◌, not, Bytes, bytes_eq, codes, ◌==◌, ltb, if◌then◌else◌, length, get_elem?, set, lookup,
  insert,
}

-- What `RunTask` returned.
pub data Outcome : Type 0 where
  value : Bytes → Outcome
  failed : Bytes → Outcome

pub data Phase : Type 0 where
  waiting : Phase
  running : Phase
  settled : Outcome → Phase

-- A buffered channel as a semaphore: its capacity, and the slots that are taken.
pub record Channel : Type 0 where
  pub limit : ℕ
  pub held : ℕ

-- `taskHandle` and its goroutine. `channel` is the channel the goroutine was given, `has_handle`
-- whether `handles` still has it.
pub record Task : Type 0 where
  pub name : Option Bytes
  pub channel : Option ℕ
  pub phase : Phase
  pub is_cancelled : Bool
  pub has_handle : Bool

-- The tasks by their handle IDs, the channels that were made, and the map of the queues' channels.
pub record Tasks : Type 0 where
  pub tasks : List Task
  pub channels : List Channel
  pub queues : List (Bytes × ℕ)
  pub is_stopped : Bool

abbrev pub no_tasks : Tasks
no_tasks = record { tasks = []; channels = []; queues = []; is_stopped = false }

-- The name of a queue, and the `limit` of the options; a limit below 1 is this 0.
abbrev pub QueueOpts : Type 0
QueueOpts = Bytes × Option ℕ

abbrev pub limit_of : Option ℕ → ℕ
limit_of none = 1
limit_of (some n) = if ltb n 1 then 1 else n

unfoldable pub new_queue : Bytes → ℕ → Tasks → ℕ × Tasks
new_queue name limit s = (
  length s.channels,
  record s {
    channels = s.channels ++ record { limit = limit; held = 0 } ∷ [];
    queues = insert name (length s.channels) s.queues;
  },
)

abbrev pub has_limit : ℕ → Option Channel → Bool
has_limit limit none = false
has_limit limit (some ch) = ch.limit == limit

unfoldable pub queue_found : Option ℕ → Bytes → ℕ → Tasks → ℕ × Tasks
unfolding new_queue
queue_found none name limit s = new_queue name limit s
queue_found (some j) name limit s =
    if has_limit limit (get_elem? s.channels j) then (j, s) else new_queue name limit s

-- `getQueue`
unfoldable pub get_queue : Bytes → ℕ → Tasks → ℕ × Tasks
unfolding queue_found
get_queue name limit s = queue_found (lookup name s.queues) name limit s

-- `spawnHandle`
unfoldable pub spawn : Option Bytes → Option ℕ → Tasks → Tasks
spawn name channel s = record s {
  tasks =
      s.tasks
      ++ record {
        name = name;
        channel = channel;
        phase = waiting;
        is_cancelled = false;
        has_handle = true;
      }
        ∷ [];
}

-- `task.run`
unfoldable pub run_task : Option QueueOpts → Tasks → Tasks
unfolding get_queue spawn
run_task none s = spawn none none s
run_task (some (name, limit)) s =
    let (j, s') = get_queue name (limit_of limit) s in spawn (some name) (some j) s'

abbrev pub move : ℕ → Task → Phase → Tasks → Tasks
move i t phase s = record s { tasks = set s.tasks i (record t { phase = phase }) }

abbrev pub set_held : ℕ → Channel → ℕ → Tasks → Tasks
set_held j ch n s = record s { channels = set s.channels j (record ch { held = n }) }

-- `queueCh <- struct{}{}`: only if a slot is free.
unfoldable pub take_slot : Option Channel → ℕ → Tasks → Option Tasks
take_slot none j s = none
take_slot (some ch) j s =
    if ltb ch.held ch.limit then some (set_held j ch (ch.held + 1) s) else none

-- `<-queueCh`
unfoldable pub free_slot : Option Channel → ℕ → Tasks → Tasks
free_slot none j s = s
free_slot (some ch) j s = set_held j ch (ch.held - 1) s

unfoldable pub acquire : Option ℕ → Tasks → Option Tasks
unfolding take_slot
acquire none s = some s
acquire (some j) s = take_slot (get_elem? s.channels j) j s

unfoldable pub release : Option ℕ → Tasks → Tasks
unfolding free_slot
release none s = s
release (some j) s = free_slot (get_elem? s.channels j) j s

abbrev pub move_some : ℕ → Task → Phase → Option Tasks → Option Tasks
move_some i t phase none = none
move_some i t phase (some s) = some (move i t phase s)

-- The steps of a goroutine; `none` is a step that cannot be taken now.
unfoldable pub start_phase : Phase → ℕ → Task → Tasks → Option Tasks
unfolding acquire
start_phase waiting i t s = move_some i t running (acquire t.channel s)
start_phase running i t s = none
start_phase (settled _) i t s = none

-- A task without a queue waits for nothing.
unfoldable pub abort_phase : Phase → Option ℕ → ℕ → Task → Tasks → Option Tasks
abort_phase waiting (some j) i t s =
    if t.is_cancelled || s.is_stopped
    then some (move i t (settled (failed (codes "context canceled"))) s)
    else none
abort_phase waiting none i t s = none
abort_phase running c i t s = none
abort_phase (settled _) c i t s = none

unfoldable pub finish_phase : Phase → Outcome → ℕ → Task → Tasks → Option Tasks
unfolding release
finish_phase running r i t s = some (move i t (settled r) (release t.channel s))
finish_phase waiting r i t s = none
finish_phase (settled _) r i t s = none

abbrev pub with_task : (Task → Option Tasks) → Option Task → Option Tasks
with_task f none = none
with_task f (some t) = f t

unfoldable pub start : ℕ → Tasks → Option Tasks
unfolding start_phase
start i s = with_task (λ t. start_phase t.phase i t s) (get_elem? s.tasks i)

unfoldable pub abort : ℕ → Tasks → Option Tasks
unfolding abort_phase
abort i s = with_task (λ t. abort_phase t.phase t.channel i t s) (get_elem? s.tasks i)

unfoldable pub finish : ℕ → Outcome → Tasks → Option Tasks
unfolding finish_phase
finish i r s = with_task (λ t. finish_phase t.phase r i t s) (get_elem? s.tasks i)

-- What a call of the script returns or throws, or that it has to wait.
pub data Answer : Type 0 where
  unknown_handle : ℕ → Answer
  undefined : Answer
  still_running : Answer
  returned : Outcome → Answer

abbrev drop_handle : ℕ → Task → Tasks → Tasks
drop_handle i t s = record s { tasks = set s.tasks i (record t { has_handle = false }) }

unfoldable pub done_phase : Phase → ℕ → Task → Tasks → Answer × Tasks
done_phase waiting i t s = (still_running, s)
done_phase running i t s = (still_running, s)
done_phase (settled r) i t s = (returned r, drop_handle i t s)

unfoldable pub done_task : Option Task → ℕ → Tasks → Answer × Tasks
unfolding done_phase
done_task none i s = (unknown_handle i, s)
done_task (some t) i s = if t.has_handle then done_phase t.phase i t s else (unknown_handle i, s)

-- `task.done`. `task.join` waits until this returns an outcome, and `task.all` does so for each task.
unfoldable pub done : ℕ → Tasks → Answer × Tasks
unfolding done_task
done i s = done_task (get_elem? s.tasks i) i s

unfoldable pub cancel_task : Option Task → ℕ → Tasks → Answer × Tasks
cancel_task none i s = (unknown_handle i, s)
cancel_task (some t) i s =
    if t.has_handle
    then (undefined, record s { tasks = set s.tasks i (record t { is_cancelled = true }) })
    else (unknown_handle i, s)

-- `task.cancel`
unfoldable pub cancel : ℕ → Tasks → Answer × Tasks
unfolding cancel_task
cancel i s = cancel_task (get_elem? s.tasks i) i s

pub data Event : Type 0 where
  runs : Option QueueOpts → Event
  starts : ℕ → Event
  aborts : ℕ → Event
  finishes : ℕ → Outcome → Event
  polls : ℕ → Event
  cancels : ℕ → Event
  stops : Event

-- A step of the script, of a goroutine, or the end of the script's context.
unfoldable pub step : Event → Tasks → Option Tasks
unfolding run_task start abort finish done cancel
step (runs opts) s = some (run_task opts s)
step (starts i) s = start i s
step (aborts i) s = abort i s
step (finishes i r) s = finish i r s
step (polls i) s = some (done i s).1
step (cancels i) s = some (cancel i s).1
step stops s = some (record s { is_stopped = true })

abbrev pub and_then : Option Tasks → (Tasks → Option Tasks) → Option Tasks
and_then none next = none
and_then (some s) next = next s

unfoldable pub run_all : List Event → Tasks → Option Tasks
unfolding step
run_all [] s = some s
run_all (e ∷ es) s = and_then (step e s) (run_all es)
