-- ===== src/Web/Events.antt =====
-- web/events.go: the hub that sends the events of chats to the browsers that listen.
pub mod Client
pub mod Examples
pub mod Delivery
pub mod Frames
use altclaw.Common.{
  ℕ, zero, suc, ◌+◌, Bool, true, false, Option, none, some, List, [], ◌∷◌, ◌++◌, ◌||◌, Bytes, codes,
  text_eq, ltb, if◌then◌else◌, length, get_elem?, set, map,
}

pub record ChatEvent : Type 0 where
  pub type : Bytes
  pub content : Bytes
  pub chat_id : ℕ
  pub message_id : Bytes

-- The package json, the decimal digits of a number, and the status of the tunnel when a client connects.
pub record Json : Type 0 where
  pub marshal_text : Bytes → Option Bytes
  pub marshal_event : ChatEvent → Option Bytes
  pub marshal_status : ℕ → Bytes
  pub digits : ℕ → Bytes

-- A client: the channel, what its handler has written, and how many events the hub had sent before.
pub record Subscriber : Type 0 where
  pub channel : List Bytes
  pub written : List Bytes
  pub since : ℕ
  pub is_open : Bool

-- The clients that subscribed so far, and the data of all broadcasts.
pub record Hub : Type 0 where
  pub subscribers : List Subscriber
  pub log : List Bytes

abbrev pub new_hub : Hub
new_hub = record { subscribers = []; log = [] }

abbrev pub channel_size : ℕ
channel_size = 1024

abbrev pub frame : Bytes → Bytes
frame p = codes "data: " ++ (p ++ (10 ∷ 10 ∷ []))

abbrev pub connected : Bytes
connected = codes "{\"type\":\"connected\"}"

-- `Subscribe`, and what `Events` writes before it waits.
unfoldable pub subscribe : Json → Hub → Hub
subscribe j h = record h {
  subscribers =
      h.subscribers
      ++ record {
        channel = [];
        written = frame connected ∷ frame (j.marshal_status (length h.log)) ∷ [];
        since = length h.log;
        is_open = true;
      }
        ∷ [];
}

-- The `select` of `BroadcastRaw` on one client: a full channel drops the event.
unfoldable pub offer : Bytes → Subscriber → Subscriber
offer line s =
    if s.is_open
    then (if ltb (length s.channel) channel_size
        then record s { channel = s.channel ++ line ∷ [] }
        else s)
    else s

-- `BroadcastRaw`, as one step: each client gets the event once. Two broadcasts at a time may reach two
-- clients in different orders.
unfoldable pub broadcast_raw : Bytes → Hub → Hub
unfolding offer
broadcast_raw p h = record h {
  subscribers = map (offer (frame p)) h.subscribers;
  log = h.log ++ p ∷ [];
}

abbrev pub is_frequent : Bytes → Bool
is_frequent t = text_eq t (codes "chunk") || text_eq t (codes "log") || text_eq t (codes "cron")

abbrev chat_part : Json → ℕ → Bytes
chat_part j id = if ltb 0 id then codes ",\"chat_id\":" ++ j.digits id else []

-- The data of an event on the fast path.
unfoldable pub fast_data : Json → ChatEvent → Bytes → Bytes
fast_data j e content =
    codes "{\"type\":\""
    ++ (e.type ++ (codes "\",\"content\":" ++ (content ++ (chat_part j e.chat_id ++ codes "}"))))

unfoldable pub broadcast_slow : Option Bytes → Hub → Hub
unfolding broadcast_raw
broadcast_slow none h = h
broadcast_slow (some p) h = broadcast_raw p h

unfoldable pub broadcast_fast : Json → Option Bytes → ChatEvent → Hub → Hub
unfolding broadcast_slow fast_data
broadcast_fast j none e h = broadcast_slow (j.marshal_event e) h
broadcast_fast j (some content) e h = broadcast_raw (fast_data j e content) h

-- `Broadcast`
unfoldable pub broadcast : Json → ChatEvent → Hub → Hub
unfolding broadcast_fast
broadcast j e h =
    if is_frequent e.type
    then broadcast_fast j (j.marshal_text e.content) e h
    else broadcast_slow (j.marshal_event e) h

abbrev pub close : Option Subscriber → ℕ → Hub → Option Hub
close none i h = none
close (some s) i h =
    if s.is_open
    then some (record h { subscribers = set h.subscribers i (record s { is_open = false }) })
    else none

-- `Unsubscribe`; to close the channel `done` again is a panic.
unfoldable pub unsubscribe : ℕ → Hub → Option Hub
unsubscribe i h = close (get_elem? h.subscribers i) i h

abbrev pub written_from : List Bytes → Subscriber → ℕ → Hub → Option Hub
written_from [] s i h = none
written_from (line ∷ lines) s i h = some (record h {
  subscribers =
      set h.subscribers i (record s { channel = lines; written = s.written ++ line ∷ [] });
})

abbrev pub write_open : Option Subscriber → ℕ → Hub → Option Hub
write_open none i h = none
write_open (some s) i h = if s.is_open then written_from s.channel s i h else none

-- The handler of a client takes an event from its channel and writes it.
unfoldable pub write : ℕ → Hub → Option Hub
write i h = write_open (get_elem? h.subscribers i) i h

-- `HasListeners`
unfoldable pub has_listeners : List Subscriber → Bool
has_listeners [] = false
has_listeners (s ∷ ss) = s.is_open || has_listeners ss

pub data HubEvent : Type 0 where
  subscribes : HubEvent
  unsubscribes : ℕ → HubEvent
  broadcasts : ChatEvent → HubEvent
  broadcasts_raw : Bytes → HubEvent
  writes : ℕ → HubEvent

-- None is a panic, or a step that waits.
unfoldable pub hub_step : Json → HubEvent → Hub → Option Hub
unfolding subscribe unsubscribe broadcast broadcast_raw write
hub_step j subscribes h = some (subscribe j h)
hub_step j (unsubscribes i) h = unsubscribe i h
hub_step j (broadcasts e) h = some (broadcast j e h)
hub_step j (broadcasts_raw p) h = some (broadcast_raw p h)
hub_step j (writes i) h = write i h

abbrev pub and_then : Option Hub → (Hub → Option Hub) → Option Hub
and_then none next = none
and_then (some h) next = next h

unfoldable pub run_hub : Json → List HubEvent → Hub → Option Hub
unfolding hub_step
run_hub j [] h = some h
run_hub j (e ∷ es) h = and_then (hub_step j e h) (run_hub j es)
