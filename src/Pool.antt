-- ===== src/Pool.antt =====
-- internal/bridge/pool.go and internal/bridge/blob_pool.go: the pools of open connections. Both have the
-- same state, and the same Close, CloseAll and reaper.
pub mod Distinct
pub mod Counts
pub mod Balance
pub mod Jail
pub mod Examples
use altclaw.Common.{
  ℕ, zero, suc, ◌+◌, ◌-◌, Bool, true, false, Option, none, some, List, [], ◌∷◌, ◌++◌, ◌&&◌, ◌||◌,
  not, Bytes, bytes_eq, codes, text_eq, has_prefix, ltb, if◌then◌else◌, length, map, lookup, insert,
  remove,
}
use altclaw.Paths.{Components, Files, join, Sanitized, within, invalid, escapes, sanitize_path}

-- `poolEntry`; a handle is its number among those that were opened.
pub record Conn : Type 0 where
  pub handle : ℕ
  pub last_access : ℕ

-- A pool with what was opened so far, by driver and target, and the handles that were closed.
pub record Pool : Type 0 where
  pub conns : List (Bytes × Conn)
  pub opened : List (Bytes × Bytes)
  pub closed : List ℕ
  pub now : ℕ
  pub is_stopped : Bool

abbrev pub new_pool : Pool
new_pool = record { conns = []; opened = []; closed = []; now = 0; is_stopped = false }

-- 5 minutes
abbrev pub idle_timeout : ℕ
idle_timeout = 300000000000

abbrev pub driver_map : List (Bytes × Bytes)
driver_map =
    (codes "sqlite", codes "sqlite")
    ∷ (codes "postgres", codes "pgx")
    ∷ (codes "mysql", codes "mysql")
    ∷ (codes "mssql", codes "sqlserver")
    ∷ []

pub data Answer : Type 0 where
  unsupported : Answer
  not_allowed : Answer
  open_failed : Answer
  connect_failed : Answer
  handle : ℕ → Answer

-- What the outside does in a call of `Get`: whether the connection that is there, the opening and the
-- new connection work.
pub record World : Type 0 where
  pub pings_old : Bool
  pub opens : Bool
  pub pings_new : Bool

-- The names that are opened as they are. The second test passes every text with that beginning.
abbrev pub has_memory_name : Bytes → Bool
has_memory_name s = text_eq s (codes ":memory:") || has_prefix s (codes "file::memory:")

abbrev pub path_of : Sanitized → Option Bytes
path_of (within p) = some (47 ∷ join p)
path_of invalid = none
path_of escapes = none

-- What is opened: for SQLite a path in the workspace.
unfoldable pub target : Files → Components → Bytes → Bytes → Option Bytes
target f workspace go_driver conn_str =
    if text_eq go_driver (codes "sqlite") && not (has_memory_name conn_str)
    then path_of (sanitize_path f workspace conn_str)
    else some conn_str

abbrev pub close_handle : ℕ → Pool → Pool
close_handle h s = record s { closed = h ∷ s.closed }

-- `Close`
unfoldable pub close_found : Option Conn → Bytes → Pool → Pool
close_found none key s = s
close_found (some c) key s = close_handle c.handle (record s { conns = remove key s.conns })

unfoldable pub close_key : Bytes → Pool → Pool
unfolding close_found
close_key key s = close_found (lookup key s.conns) key s

abbrev pub keep_conn : Bytes → ℕ → Pool → Pool
keep_conn key h s = record s {
  conns = insert key (record { handle = h; last_access = s.now }) s.conns;
}

abbrev pub open_log : Bytes → Bytes → Pool → Pool
open_log driver target s = record s { opened = (driver, target) ∷ s.opened }

-- `sql.Open` and the ping after it.
unfoldable pub open_new : World → Bytes → Bytes → Bytes → Pool → Answer × Pool
open_new w driver target key s =
    let h = length s.opened in
    if not w.opens
    then (open_failed, s)
    else if not w.pings_new
    then (connect_failed, close_handle h (open_log driver target s))
    else (handle h, keep_conn key h (open_log driver target s))

unfoldable pub get_found : Option Conn → World → Bytes → Bytes → Bytes → Pool → Answer × Pool
unfolding open_new close_key
get_found none w driver target key s = open_new w driver target key s
get_found (some c) w driver target key s =
    if w.pings_old
    then (handle c.handle, keep_conn key c.handle s)
    else open_new w driver target key (close_key key s)

unfoldable pub get_target : Option Bytes → World → Bytes → Bytes → Pool → Answer × Pool
unfolding get_found
get_target none w driver key s = (not_allowed, s)
get_target (some t) w driver key s = get_found (lookup key s.conns) w driver t key s

module _ (f : Files) (workspace : Components) where
  unfoldable pub get_driver : Option Bytes → World → Bytes → Bytes → Pool → Answer × Pool
  unfolding target get_target
  get_driver none w key conn_str s = (unsupported, s)
  get_driver (some go_driver) w key conn_str s =
      get_target (target f workspace go_driver conn_str) w go_driver key s

  -- `DBPool.Get`
  unfoldable pub get_db : World → Bytes → Bytes → Pool → Answer × Pool
  unfolding get_driver
  get_db w driver conn_str s =
      get_driver (lookup (f.to_lower driver) driver_map) w (driver ++ (58 ∷ conn_str)) conn_str s

-- `BlobPool.Put` of a bucket that the caller has opened.
unfoldable pub put_bucket : Bytes → Bytes → Bytes → Pool → Pool
unfolding close_key
put_bucket driver target key s =
    let s' = close_key key s in keep_conn key (length s'.opened) (open_log driver target s')

unfoldable pub touch_found : Option Conn → Bytes → Pool → Option ℕ × Pool
touch_found none key s = (none, s)
touch_found (some c) key s = (some c.handle, keep_conn key c.handle s)

-- `BlobPool.Get`
unfoldable pub get_bucket : Bytes → Pool → Option ℕ × Pool
unfolding touch_found
get_bucket key s = touch_found (lookup key s.conns) key s

abbrev pub handles : List (Bytes × Conn) → List ℕ
handles m = map (λ e. e.1.handle) m

-- `CloseAll`; to close the channel of the reaper again is a panic.
unfoldable pub close_all : Pool → Option Pool
close_all s =
    if s.is_stopped
    then none
    else some (record s { conns = []; closed = handles s.conns ++ s.closed; is_stopped = true })

abbrev pub is_idle : ℕ → Conn → Bool
is_idle now c = ltb idle_timeout (now - c.last_access)

-- The connections that `reap` closes, and those that it keeps.
unfoldable pub reaped : ℕ → List (Bytes × Conn) → List ℕ × List (Bytes × Conn)
reaped now [] = ([], [])
reaped now ((k, c) ∷ m) =
    let (closed, kept) = reaped now m in
    if is_idle now c then (c.handle ∷ closed, kept) else (closed, (k, c) ∷ kept)

-- `reap`
unfoldable pub reap : Pool → Pool
unfolding reaped
reap s =
    let (closed, kept) = reaped s.now s.conns in
    record s { conns = kept; closed = closed ++ s.closed }

pub data Event : Type 0 where
  gets : World → Bytes → Bytes → Event
  puts : Bytes → Bytes → Bytes → Event
  touches : Bytes → Event
  closes : Bytes → Event
  closes_all : Event
  passes : ℕ → Event
  reaps : Event

-- A call, a tick of the reaper, or time; `none` is a panic, or a tick when the reaper has ended.
unfoldable pub step : Files → Components → Event → Pool → Option Pool
unfolding get_db put_bucket get_bucket close_key close_all reap
step f ws (gets w driver conn_str) s = some (get_db f ws w driver conn_str s).1
step f ws (puts driver target key) s = some (put_bucket driver target key s)
step f ws (touches key) s = some (get_bucket key s).1
step f ws (closes key) s = some (close_key key s)
step f ws closes_all s = close_all s
step f ws (passes d) s = some (record s { now = s.now + d })
step f ws reaps s = if s.is_stopped then none else some (reap s)

abbrev pub and_then : Option Pool → (Pool → Option Pool) → Option Pool
and_then none next = none
and_then (some s) next = next s

unfoldable pub run_all : Files → Components → List Event → Pool → Option Pool
unfolding step
run_all f ws [] s = some s
run_all f ws (e ∷ es) s = and_then (step f ws e s) (run_all f ws es)
