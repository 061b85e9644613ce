-- ===== src/Web.antt =====
-- web/api.go, web/passkey.go and the logins of web/server.go: who may call the API.
pub mod Login
pub mod Effects
pub mod Steps
pub mod Sessions
pub mod Passwords
pub mod Public
pub mod Served
pub mod Slash
pub mod Hub
pub mod Events
pub mod Chats
pub mod Examples
use altclaw.Common.{
  ℕ, zero, suc, ◌+◌, ◌-◌, ◌*◌, ◌/◌, ◌^◌, Bool, true, false, Option, none, some, List, [], ◌∷◌, ◌++◌,
  ◌&&◌, ◌||◌, not, Bytes, bytes_eq, codes, ◌==◌, leb, ltb, if◌then◌else◌, length, take, drop,
  text_eq, index, last_index, any, lookup, insert, remove,
}
use altclaw.IpFilter
use altclaw.IpFilter.{Addresses, is_blank}

-- What the handlers take of a request; `cookie` is the session of the client.
pub record Request : Type 0 where
  pub path : Bytes
  pub is_delete : Bool
  pub from : IpFilter.Request
  pub host : Bytes
  pub forwarded_host : Bytes
  pub cookie : Option Bytes

-- An integer of 64 bits; `negsuc n` is -(n + 1).
pub data ℤ : Type 0 where
  pos : ℕ → ℤ
  negsuc : ℕ → ℤ

-- The packages net, strconv, hmac and json, and the n-th password that is drawn.
pub record Outside : Type 1 where
  pub net : Addresses
  pub random : ℕ → Bytes
  pub parse_int : Bytes → Option ℤ
  pub hmac : Bytes → Bytes → Bytes
  pub is_credential : Bytes → Bool
  pub gui_mode : Bool

-- `PasskeyEntry`
pub record Passkey : Type 0 where
  pub rp_id : Bytes
  pub credential_data : Bytes

pub data Rate : Type 0 where
  allowed : Rate
  exceeded : Rate
  failed : Rate

-- What a call learns from the store and its cache, from the body, and from the library for passkeys: if
-- it accepts the origin, and its answers to the begin of a login (a challenge) and to the end of the login
-- with a number.
pub record World : Type 0 where
  pub passkeys : Option (List Passkey)
  pub rate : Rate
  pub body : Option Bytes
  pub begins : Option Bytes
  pub has_webauthn : Bool
  pub query_challenge : Bytes
  pub finishes : ℕ → Bool

-- The sessions with the times of their logins, and the logins with a passkey that have begun, by their
-- challenges and numbered.
pub record Server : Type 0 where
  pub password : Bytes
  pub sessions : List (Bytes × ℕ)
  pub passkey_sessions : List (Bytes × ℕ)
  pub begun : ℕ
  pub drawn : ℕ
  pub now : ℕ

-- `passed` leaves the answer to a handler that is not modelled.
pub data Reply : Type 0 where
  passed : Reply
  logged_in : Bytes → ℕ → Reply
  logged_out : Reply
  assertion : Bytes → Reply
  refused : ℕ → Reply
  failed_bind : Reply
  failed_rate : Reply

pub data Event : Type 0 where
  calls : Request → World → Event
  auto_logs_in : Request → Bytes → Event
  hub_logs_in : Bytes → Bytes → Event
  passes : ℕ → Event

abbrev pub second : ℕ
second = 1000000000

abbrev pub day : ℕ
day = 24 * (3600 * second)

abbrev is_loopback : Bytes → Bool
is_loopback h =
    text_eq h (codes "127.0.0.1") || text_eq h (codes "::1") || text_eq h (codes "localhost")

abbrev host_or : Bytes → Option (Bytes × Bytes) → Bytes
host_or h none = h
host_or h (some (host, port)) = host

-- A text with the part before its last colon, if that is not at its start.
abbrev before_port : Bytes → Option ℕ → Bytes
before_port h none = h
before_port h (some i) = if ltb 0 i then take i h else h

abbrev pub has_suffix : Bytes → Bytes → Bool
has_suffix s p = leb (length p) (length s) && text_eq (drop (length s - length p) s) p

-- `rpIDFromRequest`
unfoldable pub rp_id : Request → Bytes
rp_id r =
    let full = if is_blank r.forwarded_host then r.host else r.forwarded_host in
    let host = before_port full (last_index full (codes ":")) in
    if has_suffix host (codes ".altclaw.ai") then codes "altclaw.ai" else host

-- `r.URL.Path` of the calls that need no session.
abbrev pub public_paths : List Bytes
public_paths =
    codes "/api/auth"
    ∷ codes "/api/passkey-login-begin"
    ∷ codes "/api/passkey-login-finish"
    ∷ codes "/api/has-passkeys"
    ∷ codes "/api/stats"
    ∷ codes "/api/vapid-public-key"
    ∷ []

abbrev pub is_public : Bytes → Bool
is_public path = any (text_eq path) public_paths

-- `time.Since(created) > 30*24*time.Hour`
abbrev pub is_expired : ℕ → ℕ → Bool
is_expired now created = ltb (30 * day) (now - created)

abbrev pub forget : Bytes → Server → Server
forget id s = record s { sessions = remove id s.sessions }

unfoldable pub check_session : Option ℕ → Bytes → Server → Reply × Server
check_session none id s = (refused 401, s)
check_session (some created) id s =
    if is_expired s.now created then (refused 401, forget id s) else (passed, s)

unfoldable pub check_cookie : Option Bytes → Server → Reply × Server
unfolding check_session
check_cookie none s = (refused 401, s)
check_cookie (some id) s = check_session (lookup id s.sessions) id s

unfoldable pub log_out : Option Bytes → Server → Reply × Server
log_out none s = (logged_out, s)
log_out (some id) s = (logged_out, forget id s)

abbrev keep_challenge : Option Bytes → Server → Reply × Server
keep_challenge none s = (refused 500, s)
keep_challenge (some c) s = (
  assertion c,
  record s { passkey_sessions = insert c s.begun s.passkey_sessions; begun = suc s.begun },
)

abbrev pub login_begun : Option (List Passkey) → Option Bytes → Server → Reply × Server
login_begun none c s = (refused 404, s)
login_begun (some []) c s = (refused 404, s)
login_begun (some (k ∷ ks)) c s = keep_challenge c s

-- `PasskeyLoginBegin`
unfoldable pub passkey_login_begin : World → Server → Reply × Server
passkey_login_begin w s = login_begun w.passkeys w.begins s

-- `int64` subtraction of a time stamp from the seconds of the clock, which are less than 2 ^ 63, with
-- the tests of its result.
abbrev pub in_window : ℕ → Option ℤ → Bool
in_window now none = false
in_window now (some (pos ts)) = leb now (ts + 60) && leb ts (now + 5)
in_window now (some (negsuc n)) =
    let diff = now + n + 1 in if ltb diff (2 ^ 63) then leb diff 60 else leb (2 ^ 64) (diff + 5)

module _ (o : Outside) where
  abbrev split_host_port : Bytes → Option (Bytes × Bytes)
  split_host_port = o.net.split_host_port

  -- `isLocalRequest`
  unfoldable pub is_local_request : Request → Bool
  is_local_request r =
      is_blank r.from.x_forwarded_for
      && is_blank r.from.x_client_ip
      && is_loopback (host_or [] (split_host_port r.from.remote_addr))
      && is_loopback (host_or r.host (split_host_port r.host))

  -- `isGUILocal`
  abbrev pub is_gui_local : Request → Bool
  is_gui_local r = o.gui_mode && is_local_request r

  -- `NewServer`
  abbrev pub new_server : ℕ → Server
  new_server now = record {
    password = o.random 0;
    sessions = [];
    passkey_sessions = [];
    begun = 0;
    drawn = 1;
    now = now;
  }

  unfoldable pub rotate_password : Server → Server
  rotate_password s = record s { password = o.random s.drawn; drawn = suc s.drawn }

  -- The age is the cookie's, in seconds.
  unfoldable pub create_session : ℕ → Server → Reply × Server
  create_session max_age s =
      let id = o.random s.drawn in
      (
        logged_in id max_age,
        record s { sessions = insert id s.now s.sessions; drawn = suc s.drawn },
      )

  -- `authMiddleware`
  unfoldable pub auth_middleware : Request → Server → Reply × Server
  unfolding check_cookie is_local_request
  auth_middleware r s =
      if is_public r.path || is_gui_local r then (passed, s) else check_cookie r.cookie s
