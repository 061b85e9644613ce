-- ===== src/Web/Chats.antt =====
-- web/api_chat.go and web/server.go: the sessions of chats, whose agents run in goroutines of their own.
pub mod Sound
pub mod Sending
pub mod Runs
pub mod Examples
use altclaw.Common.{
  ℕ, zero, suc, ◌+◌, ◌-◌, Bool, true, false, Option, none, some, List, [], ◌∷◌, ◌++◌, ◌&&◌, ◌||◌,
  not, Bytes, codes, text_eq, nat_eq, ltb, ◌==◌, if◌then◌else◌, length, get_elem?, set, lookup,
  insert, map,
}
use altclaw.Web.Events.{ChatEvent}

-- `chatSession`. Beside its fields: whether the context was cancelled, the goroutines that run its agent,
-- and of the last run what was injected, what the agent took, and how many events the session had
-- recorded before.
pub record Session : Type 0 where
  pub running : Bool
  pub pending_events : List ChatEvent
  pub pending_msgs : List Bytes
  pub has_cancel : Bool
  pub is_cancelled : Bool
  pub agents : ℕ
  pub injected : List Bytes
  pub taken : List Bytes
  pub begun_at : ℕ

-- The map of the chats to sessions, by their numbers among those that were made, and the events, each
-- with the number of its session: those that were recorded in a buffer, those of them whose goroutine has
-- yet to call the hub, and those that were broadcast.
pub record Chats : Type 0 where
  pub chats : List (ℕ × ℕ)
  pub sessions : List Session
  pub recorded : List (ℕ × ChatEvent)
  pub unsent : List (ℕ × ChatEvent)
  pub sent : List (ℕ × ChatEvent)

abbrev pub no_chats : Chats
no_chats = record { chats = []; sessions = []; recorded = []; unsent = []; sent = [] }

abbrev pub new_session : Session
new_session = record {
  running = false;
  pending_events = [];
  pending_msgs = [];
  has_cancel = false;
  is_cancelled = false;
  agents = 0;
  injected = [];
  taken = [];
  begun_at = 0;
}

pub data Reply : Type 0 where
  started : Reply
  already_running : Reply
  stopped : Reply
  not_found : Reply
  not_running : Reply
  not_waiting : Reply
  answered : Reply
  queued : Reply

-- The events of a session, in order.
unfoldable pub recorded_by : ℕ → List (ℕ × ChatEvent) → List ChatEvent
recorded_by i [] = []
recorded_by i ((j, e) ∷ es) = if j == i then e ∷ recorded_by i es else recorded_by i es

abbrev pub put : ℕ → Session → Chats → Chats
put i x s = record s { sessions = set s.sessions i x }

-- The second part of `getOrCreateSession`, for a chat that was not found in the first.
unfoldable pub make_session : ℕ → Chats → Chats
make_session chat s = record s {
  chats = insert chat (length s.sessions) s.chats;
  sessions = s.sessions ++ new_session ∷ [];
}

-- `rebuildAgent`
unfoldable pub rebuild_agent : Chats → Chats
rebuild_agent s = record s { chats = [] }

-- The part of `Chat` under the session's lock, and the goroutine that it starts.
unfoldable pub begin_run : ℕ → Session → Chats → Reply × Chats
begin_run i x s = if x.running then (already_running, s) else (
  started,
  put i
      (record x {
        running = true;
        pending_events = [];
        pending_msgs = [];
        has_cancel = true;
        is_cancelled = false;
        agents = suc x.agents;
        injected = [];
        taken = [];
        begun_at = length (recorded_by i s.recorded);
      })
      s,
)

abbrev pub is_last : Bytes → Bool
is_last t = text_eq t (codes "done") || text_eq t (codes "error") || text_eq t (codes "meta")

-- The part of `bufferAndBroadcast` under the session's lock: events after the end of a run are dropped,
-- but for the last ones.
unfoldable pub buffer_event : ℕ → ChatEvent → Session → Chats → Chats
buffer_event i e x s =
    if not x.running && not (is_last e.type)
    then s
    else put i (record x { pending_events = x.pending_events ++ e ∷ [] })
        (record s { recorded = s.recorded ++ (i, e) ∷ []; unsent = s.unsent ++ (i, e) ∷ [] })

abbrev pub without : ℕ → List (ℕ × ChatEvent) → List (ℕ × ChatEvent)
without n [] = []
without zero (e ∷ es) = es
without (suc n) (e ∷ es) = e ∷ without n es

abbrev pub send_found : ℕ → Option (ℕ × ChatEvent) → Chats → Option Chats
send_found n none s = none
send_found n (some e) s = some (record s { unsent = without n s.unsent; sent = s.sent ++ e ∷ [] })

-- The rest of it, without the lock: the goroutine of one of the recorded events calls the hub.
unfoldable pub broadcast_event : ℕ → Chats → Option Chats
broadcast_event n s = send_found n (get_elem? s.unsent n) s

-- `PendingMsgs`, which the agent calls.
unfoldable pub take_pending : ℕ → Session → Chats → Option Chats
take_pending i x s =
    if ltb 0 x.agents
    then some (put i (record x { pending_msgs = []; taken = x.taken ++ x.pending_msgs }) s)
    else none

-- The end of the goroutine.
unfoldable pub end_run : ℕ → Session → Chats → Option Chats
end_run i x s =
    if ltb 0 x.agents
    then some (
        put i
          (record x {
            running = false;
            has_cancel = false;
            pending_events = [];
            pending_msgs = [];
            agents = x.agents - 1;
          })
          s)
    else none

abbrev pub at : ℕ → Chats → Option Session
at i s = get_elem? s.sessions i

-- `Stop`
unfoldable pub stop_session : ℕ → Option Session → Chats → Chats
stop_session i none s = s
stop_session i (some x) s = if x.has_cancel then put i (record x { is_cancelled = true }) s else s

unfoldable pub stop : Option ℕ → Chats → Reply × Chats
unfolding stop_session
stop none s = (stopped, s)
stop (some i) s = (stopped, stop_session i (at i s) s)

-- `Chats_0_Answer`; `is_received` if a call of `AskUser` or `ConfirmUser` waits on the channel.
unfoldable pub answer_session : Bool → Option Session → Reply
answer_session is_received none = not_found
answer_session is_received (some x) =
    if x.running then (if is_received then answered else not_waiting) else not_running

unfoldable pub answer : Bool → Option ℕ → Chats → Reply
unfolding answer_session
answer is_received none s = not_found
answer is_received (some i) s = answer_session is_received (at i s)

-- The part of `Chats_0_Inject` under the lock.
unfoldable pub inject_session : Bytes → ℕ → Option Session → Chats → Reply × Chats
inject_session msg i none s = (not_found, s)
inject_session msg i (some x) s =
    if x.running
    then (
      queued,
      put i
          (record x {
            pending_msgs = x.pending_msgs ++ msg ∷ [];
            injected = x.injected ++ msg ∷ [];
          })
          s,
    )
    else (not_running, s)

unfoldable pub inject : Bytes → Option ℕ → Chats → Reply × Chats
unfolding inject_session
inject msg none s = (not_found, s)
inject msg (some i) s = inject_session msg i (at i s) s

-- `ChatStatus_0`
unfoldable pub chat_status : Option Session → Bool × List ChatEvent
chat_status none = (false, [])
chat_status (some x) = if x.running then (true, x.pending_events) else (false, [])

pub data Event : Type 0 where
  makes : ℕ → Event
  rebuilds : Event
  begins : ℕ → Event
  emits : ℕ → ChatEvent → Event
  broadcasts : ℕ → Event
  takes : ℕ → Event
  ends : ℕ → Event
  stops : ℕ → Event
  injects : ℕ → Bytes → Event

abbrev pub with_session : Option Session → (Session → Option Chats) → Option Chats
with_session none f = none
with_session (some x) f = f x

-- The steps of handlers and goroutines. A handler keeps the session that it found, so that the steps
-- name sessions and not chats, but for those that look the chat up. None is a step that cannot be
-- taken.
unfoldable pub step : Event → Chats → Option Chats
unfolding make_session rebuild_agent begin_run buffer_event broadcast_event take_pending end_run
    stop inject
step (makes chat) s = some (make_session chat s)
step rebuilds s = some (rebuild_agent s)
step (begins i) s = with_session (at i s) (λ x. some (begin_run i x s).1)
step (emits i e) s = with_session (at i s) (λ x. some (buffer_event i e x s))
step (broadcasts n) s = broadcast_event n s
step (takes i) s = with_session (at i s) (λ x. take_pending i x s)
step (ends i) s = with_session (at i s) (λ x. end_run i x s)
step (stops chat) s = some (stop (lookup chat s.chats) s).1
step (injects chat msg) s = some (inject msg (lookup chat s.chats) s).1

abbrev pub and_then : Option Chats → (Chats → Option Chats) → Option Chats
and_then none next = none
and_then (some s) next = next s

unfoldable pub run_all : List Event → Chats → Option Chats
unfolding step
run_all [] s = some s
run_all (e ∷ es) s = and_then (step e s) (run_all es)
