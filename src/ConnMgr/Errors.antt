-- ===== src/ConnMgr/Errors.antt =====
-- internal/connmgr/connmgr.go: which errors are worth another try, and the types of connections.
use altclaw.Common.{
  ℕ, ◌+◌, Bool, true, false, Option, none, some, List, [], ◌∷◌, ◌&&◌, ◌||◌, Bytes, codes, ◌==◌,
  if◌then◌else◌, length, drop, has_prefix, contains, index, text_eq,
}

-- What follows a status code up to a space.
unfoldable until_space : Bytes → Bytes
until_space [] = []
until_space (c ∷ cs) = let rest = until_space cs in if c == b' ' then [] else c ∷ rest

abbrev pub permanent_codes : List Bytes
permanent_codes =
    codes "HTTP 400"
    ∷ codes "HTTP 401"
    ∷ codes "HTTP 402"
    ∷ codes "HTTP 403"
    ∷ codes "HTTP 404"
    ∷ codes "HTTP 405"
    ∷ codes "HTTP 406"
    ∷ codes "HTTP 407"
    ∷ codes "HTTP 408"
    ∷ codes "HTTP 409"
    ∷ codes "HTTP 410"
    ∷ codes "HTTP 411"
    ∷ codes "HTTP 412"
    ∷ codes "HTTP 413"
    ∷ codes "HTTP 414"
    ∷ codes "HTTP 415"
    ∷ codes "HTTP 416"
    ∷ codes "HTTP 417"
    ∷ codes "HTTP 418"
    ∷ codes "HTTP 421"
    ∷ codes "HTTP 422"
    ∷ codes "HTTP 423"
    ∷ codes "HTTP 424"
    ∷ codes "HTTP 425"
    ∷ codes "HTTP 426"
    ∷ codes "HTTP 428"
    ∷ codes "HTTP 429"
    ∷ codes "HTTP 431"
    ∷ codes "HTTP 451"
    ∷ codes "status = 400"
    ∷ codes "status = 401"
    ∷ codes "status = 403"
    ∷ codes "status = 404"
    ∷ []

-- The verdict of the first code that the message contains.
unfoldable pub by_code : Bytes → List Bytes → Option Bool
by_code msg [] = none
by_code msg (c ∷ cs) = if contains msg c then some (contains msg (codes "429")) else by_code msg cs

abbrev handshake : Bytes
handshake = codes "status code 101 but got "

unfoldable pub by_handshake : Bytes → Option ℕ → Bool
unfolding until_space
by_handshake msg none = true
by_handshake msg (some i) =
    let code = until_space (drop (i + length handshake) msg) in
    if length code == 3 && has_prefix code (codes "4") then text_eq code (codes "429") else true

unfoldable pub is_retryable_message : Bytes → Bool
unfolding by_code by_handshake
is_retryable_message msg = elim (by_code msg permanent_codes) [
  | some verdict ↦ verdict
  | none ↦
      if contains msg (codes "status = 4") && contains msg (codes "StatusCode")
      then false
      else if contains msg (codes "SSRF protection")
          || contains msg (codes "host not in allowed list")
          || contains msg (codes "no such host")
      then false
      else by_handshake msg (index msg handshake)
]

-- `none` is a nil error.
unfoldable pub is_retryable_error : Option Bytes → Bool
unfolding is_retryable_message
is_retryable_error none = true
is_retryable_error (some msg) = is_retryable_message msg

pub data Protocol : Type 0 where
  ws_protocol sse_protocol : Protocol

unfoldable pub new_protocol : Bytes → Option Protocol
new_protocol conn_type =
    if text_eq conn_type (codes "ws")
    then some ws_protocol
    else if text_eq conn_type (codes "sse")
    then some sse_protocol
    else none

unfoldable pub detect_type : Bytes → Bytes → Bytes
detect_type url (c ∷ explicit) = c ∷ explicit
detect_type url [] =
    if has_prefix url (codes "wss://") || has_prefix url (codes "ws://")
    then codes "ws"
    else if has_prefix url (codes "tcp://")
    then codes "tcp"
    else if has_prefix url (codes "mqtt://") || has_prefix url (codes "mqtts://")
    then codes "mqtt"
    else codes "ws"
