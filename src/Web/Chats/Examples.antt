-- ===== src/Web/Chats/Examples.antt =====
-- A chat with a message that is injected, and one whose session is dropped from the map.
use altclaw.Common.{
  ◌+◌, true, false, some, List, [], ◌∷◌, codes, text_eq, lookup, insert, remove, ◌≡◌, refl,
}
use altclaw.Web.Events.{ChatEvent}
use altclaw.Web.Chats.{
  Session, Chats, no_chats, new_session, recorded_by, Event, makes, rebuilds, begins, emits,
  broadcasts, takes, ends, stops, injects, run_all,
}
use altclaw.Web.Chats.Sound.{IsSound}
use altclaw.Web.Chats.Runs.{run_all-IsSound}

abbrev log : ChatEvent
log = record { type = codes "log"; content = codes "x"; chat_id = 5; message_id = [] }

-- The first run ends, and the second takes the first of two messages.
abbrev two_runs : List Event
two_runs =
    makes 5
    ∷ begins 0
    ∷ emits 0 log
    ∷ ends 0
    ∷ emits 0 log
    ∷ broadcasts 0
    ∷ begins 0
    ∷ injects 5 (codes "a")
    ∷ takes 0
    ∷ injects 5 (codes "b")
    ∷ emits 0 log
    ∷ begins 0
    ∷ []

abbrev session : Session
session = record {
  running = true;
  pending_events = log ∷ [];
  pending_msgs = codes "b" ∷ [];
  has_cancel = true;
  is_cancelled = false;
  agents = 1;
  injected = codes "a" ∷ codes "b" ∷ [];
  taken = codes "a" ∷ [];
  begun_at = 1;
}

abbrev after : Chats
after = record {
  chats = (5, 0) ∷ [];
  sessions = session ∷ [];
  recorded = (0, log) ∷ (0, log) ∷ [];
  unsent = (0, log) ∷ [];
  sent = (0, log) ∷ [];
}

two_runs_lem : run_all two_runs no_chats ≡ some after
unfolding run_all recorded_by text_eq lookup insert remove
two_runs_lem = refl

run_all-IsSound_example : IsSound 0 after.recorded session × (2 ≡ 1 + 1)
run_all-IsSound_example = run_all-IsSound two_runs after 0 session (λ _. 1) two_runs_lem refl

abbrev running : Session
running = record new_session { running = true; has_cancel = true; agents = 1 }

-- After `rebuildAgent` a chat may have two agents at a time, and only one of them can be stopped.
two_agents :
    run_all (makes 5 ∷ begins 0 ∷ rebuilds ∷ makes 5 ∷ begins 1 ∷ stops 5 ∷ []) no_chats
    ≡ some (record {
      chats = (5, 1) ∷ [];
      sessions = running ∷ record running { is_cancelled = true } ∷ [];
      recorded = [];
      unsent = [];
      sent = [];
    })
unfolding run_all recorded_by text_eq lookup insert remove
two_agents = refl
