-- ===== src/ConnMgr.antt =====
-- internal/connmgr/connmgr.go: the goroutine of a persistent connection.
mod Errors
pub mod Sse
pub mod Runs
pub mod Backoff
pub mod Closing
pub mod Registry
pub mod Examples
unfoldable pub use Errors.*
use altclaw.Common.{
  ℕ, zero, suc, ◌+◌, ◌*◌, min, Bool, true, false, Option, none, some, List, [], ◌∷◌, ◌++◌, ◌&&◌,
  ◌||◌, not, Bytes, codes, ◌==◌, if◌then◌else◌, length, drop, has_prefix, contains, index, text_eq,
}

-- The fields of `config.ConnEntry` that the manager reads.
pub record ConnEntry : Type 0 where
  pub id : ℕ
  pub chat_id : ℕ
  pub conn_type : Bytes
  pub url : Bytes
  pub handler : Bytes
  pub headers : Bytes
  pub reconnect : Bool

-- A callback of the handler script.
pub data Call : Type 0 where
  on_connect : Call
  on_message : Bytes → Call
  on_close : Bytes → Call
  on_error : Bytes → Call

-- A run of a callback: its value as text, whether it failed, and whether it called `conn.close()`.
pub record Handled : Type 0 where
  pub value : Bytes
  pub has_failed : Bool
  pub closes : Bool

-- One connection from its start to its loss: the messages read, the error that ended `readLoop` or
-- nil, and whether it lasted more than 30 seconds.
pub record Session : Type 0 where
  pub messages : List Bytes
  pub ending : Option Bytes
  pub is_stable : Bool

-- The network, the engine and the manager's stop, as functions of the number of observations made.
pub record Outside : Type 0 where
  pub is_stopping : ℕ → Bool
  pub dial : ℕ → Option Bytes
  pub session : ℕ → Session
  pub init : ℕ → Bool
  pub handle : ℕ → Call → Handled

pub data Status : Type 0 where
  connecting connected reconnecting errored closed : Status

-- `connEntry` with the local variables of `runConn`, the durations waited and the callbacks run.
pub record Conn : Type 0 where
  pub entry : ConnEntry
  pub status : Status
  pub is_open : Bool
  pub is_warm : Bool
  pub user_closed : Bool
  pub messages_in : ℕ
  pub errors : ℕ
  pub reconnects : ℕ
  pub backoff : ℕ
  pub waits : List ℕ
  pub calls : List (Call × Handled)
  pub tick : ℕ

-- In nanoseconds.
abbrev pub second : ℕ
second = 1000000000

abbrev pub max_backoff : ℕ
max_backoff = 60 * second

-- The end of a round: another round, the goroutine's return, or its return after `cleanupEntry`.
pub data Round : Type 0 where
  again : Conn → Round
  returned : Conn → Round
  removed : Conn → Round

-- A retry override of the handler.
unfoldable pub override_of : Bytes → Option Bool
override_of value =
    if text_eq value (codes "true")
    then some true
    else if text_eq value (codes "false")
    then some false
    else none

abbrev pub decide : Option Bool → Bool → Bool
decide (some b) default = b
decide none default = default

module _ (o : Outside) where
  unfoldable pub ensure_warm : Conn → Conn
  ensure_warm c = if c.is_warm then c else record c { is_warm = o.init c.tick; tick = c.tick + 1 }

  abbrev pub after_call : Call → Handled → Conn → Conn
  after_call call h c = record c {
    user_closed = c.user_closed || h.closes;
    errors = if h.has_failed then c.errors + 1 else c.errors;
    calls = c.calls ++ (call, h) ∷ [];
    tick = c.tick + 1;
  }

  -- Without an engine nothing runs.
  unfoldable pub dispatch : Call → Conn → Bytes × Conn
  dispatch call c =
      let h = o.handle c.tick call in
      if not c.is_warm then ([], c) else (if h.has_failed then [] else h.value, after_call call h c)

  unfoldable pub dispatch_error : Bytes → Conn → Option Bool × Conn
  unfolding dispatch override_of
  dispatch_error e c = let (value, c') = dispatch (on_error e) c in (override_of value, c')

  unfoldable pub read_loop : List Bytes → Conn → Conn
  unfolding dispatch ensure_warm
  read_loop [] c = c
  read_loop (m ∷ ms) c =
      read_loop ms
        (dispatch (on_message m) (ensure_warm (record c { messages_in = c.messages_in + 1 }))).1

  -- The wait before the next round, unless the manager or the connection is stopped in it.
  unfoldable pub wait : Conn → Round
  wait c =
      if o.is_stopping c.tick
      then returned c
      else again (record c {
        waits = c.waits ++ c.backoff ∷ [];
        backoff = min (c.backoff * 2) max_backoff;
        tick = c.tick + 1;
      })

  abbrev pub retry_or : Bool → Status → Conn → Round
  retry_or should_retry status c =
      if should_retry
      then wait (record c { status = reconnecting })
      else removed (record c { status = status; is_warm = false })

  unfoldable pub dial_failed : Bytes → Conn → Round
  unfolding dispatch_error is_retryable_error wait
  dial_failed e c =
      let (override, c') = dispatch_error e (record c { errors = c.errors + 1 }) in
      retry_or (decide override (c.entry.reconnect && is_retryable_error (some e))) errored c'

  unfoldable pub dispatch_close : Option Bytes → Conn → Conn
  unfolding dispatch
  dispatch_close none c = c
  dispatch_close (some e) c = (dispatch (on_close e) c).1

  unfoldable pub override_error : Option Bytes → Conn → Option Bool × Conn
  unfolding dispatch_error
  override_error none c = (none, c)
  override_error (some e) c = dispatch_error e c

  abbrev counted : Bool → Conn → Conn
  counted should_retry c = if should_retry then record c { reconnects = c.reconnects + 1 } else c

  -- After the loss of a connection. A close by the user comes before the handler's override.
  unfoldable pub lost : Option Bytes → Conn → Round
  unfolding dispatch_close override_error is_retryable_error wait
  lost ending c =
      let c1 = dispatch_close ending c in
      let default = c.entry.reconnect && is_retryable_error ending && not c1.user_closed in
      let (override, c2) = override_error ending c1 in
      retry_or (decide override default) closed (counted (decide override default) c2)

  unfoldable pub connect : Session → Conn → Round
  unfolding dispatch ensure_warm read_loop lost
  connect s c =
      let c1 = ensure_warm (record c { is_open = true; status = connected; tick = c.tick + 1 }) in
      let c2 = read_loop s.messages (dispatch on_connect c1).1 in
      lost s.ending
        (record c2 { is_open = false; backoff = if s.is_stable then second else c2.backoff })

  unfoldable pub dialed : Option Bytes → Conn → Round
  unfolding dial_failed connect
  dialed (some e) c = dial_failed e c
  dialed none c = connect (o.session c.tick) c

  unfoldable pub with_protocol : Option Protocol → Conn → Round
  unfolding dialed
  with_protocol none c = returned (record c { status = errored })
  with_protocol (some p) c =
      dialed (o.dial c.tick) (record c { status = connecting; tick = c.tick + 1 })

  -- One round of the loop of `runConn`.
  unfoldable pub round : Conn → Round
  unfolding with_protocol new_protocol
  round c =
      if o.is_stopping c.tick
      then returned (record c { tick = c.tick + 1 })
      else with_protocol (new_protocol c.entry.conn_type) (record c { tick = c.tick + 1 })

  abbrev pub and_then : Round → (Conn → Round) → Round
  and_then (again c) next = next c
  and_then (returned c) next = returned c
  and_then (removed c) next = removed c

  -- The connection after some rounds.
  unfoldable pub rounds : ℕ → Conn → Round
  unfolding round
  rounds zero c = again c
  rounds (suc n) c = and_then (round c) (rounds n)

-- The variables at the start of `runConn`.
abbrev pub start : ConnEntry → Conn
start e = record {
  entry = e;
  status = connecting;
  is_open = false;
  is_warm = false;
  user_closed = false;
  messages_in = 0;
  errors = 0;
  reconnects = 0;
  backoff = second;
  waits = [];
  calls = [];
  tick = 0;
}
