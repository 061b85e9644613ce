-- ===== src/Web/Login.antt =====
-- web/api.go, web/passkey.go and web/server.go: the logins, and a call of the API as a whole.
use altclaw.Common.{
  ℕ, suc, ◌+◌, ◌*◌, ◌/◌, Bool, false, Option, none, some, List, [], ◌∷◌, ◌&&◌, ◌||◌, not, Bytes,
  bytes_eq, codes, if◌then◌else◌, take, drop, text_eq, index, any, lookup, remove,
}
use altclaw.IpFilter.{is_blank}
use altclaw.Web.{
  Event, Passkey, Rate, Reply, Request, Server, World, allowed, auth_middleware, auto_logs_in,
  calls, create_session, exceeded, failed, failed_bind, failed_rate, hub_logs_in, in_window,
  is_local_request, log_out, passed, passes, passkey_login_begin, refused, rotate_password, rp_id,
  second, Outside,
}

module _ (o : Outside) where
  abbrev is_usable : Bytes → Passkey → Bool
  is_usable rp k = text_eq k.rp_id rp && o.is_credential k.credential_data

  abbrev pub has_passkeys_for_origin : Option (List Passkey) → Bytes → Bool
  has_passkeys_for_origin none rp = false
  has_passkeys_for_origin (some ks) rp = any (is_usable rp) ks

  unfoldable pub check_password : Option Bytes → Server → Reply × Server
  unfolding rotate_password create_session
  check_password none s = (failed_bind, s)
  check_password (some pw) s =
      if text_eq pw s.password
      then create_session o (86400 * 7) (rotate_password o s)
      else (refused 401, s)

  unfoldable pub after_rate : Rate → Option Bytes → Server → Reply × Server
  unfolding check_password
  after_rate allowed body s = check_password body s
  after_rate exceeded body s = (refused 429, s)
  after_rate failed body s = (failed_rate, s)

  unfoldable pub log_in : Request → World → Server → Reply × Server
  unfolding after_rate rp_id
  log_in r w s =
      if not (is_blank r.from.x_client_ip) && has_passkeys_for_origin w.passkeys (rp_id r)
      then (refused 403, s)
      else after_rate w.rate w.body s

  -- `Auth`
  unfoldable pub auth : Request → World → Server → Reply × Server
  unfolding log_in log_out
  auth r w s = if r.is_delete then log_out r.cookie s else log_in r w s

  -- `Auth_AutoLogin`
  unfoldable pub auto_login : Request → Bytes → Server → Reply × Server
  unfolding is_local_request rotate_password create_session
  auto_login r pw s =
      if not (is_local_request o r)
      then (refused 403, s)
      else if is_blank pw || not (text_eq pw s.password)
      then (refused 403, s)
      else create_session o (86400 * 30) (rotate_password o s)

  unfoldable pub check_signature : Bytes → Bytes → Bytes → Server → Reply × Server
  unfolding create_session
  check_signature tunnel_token sig ts s =
      if not (in_window (s.now / second) (o.parse_int ts))
      then (refused 403, s)
      else if is_blank tunnel_token
      then (refused 403, s)
      else if text_eq sig (o.hmac tunnel_token ts)
      then create_session o (86400 * 30) s
      else (refused 403, s)

  unfoldable pub check_parts : Option ℕ → Bytes → Bytes → Server → Reply × Server
  unfolding check_signature
  check_parts none token tunnel_token s = (refused 400, s)
  check_parts (some i) token tunnel_token s =
      check_signature tunnel_token (take i token) (drop (suc i) token) s

  -- `Auth_HubLogin`
  unfoldable pub hub_login : Bytes → Bytes → Server → Reply × Server
  unfolding check_parts
  hub_login token tunnel_token s =
      if is_blank token
      then (refused 400, s)
      else check_parts (index token (codes ":")) token tunnel_token s

  unfoldable pub finish_begun : Option ℕ → World → Server → Reply × Server
  unfolding create_session
  finish_begun none w s = (refused 400, s)
  finish_begun (some n) w s =
      if w.finishes n then create_session o (86400 * 7) s else (refused 401, s)

  -- `PasskeyLoginFinish`
  unfoldable pub passkey_login_finish : World → Server → Reply × Server
  unfolding finish_begun
  passkey_login_finish w s =
      let c = w.query_challenge in
      if w.has_webauthn
      then finish_begun (lookup c s.passkey_sessions) w
          (record s { passkey_sessions = remove c s.passkey_sessions })
      else (refused 500, s)

  -- The handler of a path. Of those that are not modelled only the two of the registration of passkeys
  -- change this state: they put their challenges into the map of the logins and take them out.
  unfoldable pub handle : Request → World → Server → Reply × Server
  unfolding auth passkey_login_begin passkey_login_finish
  handle r w s =
      if text_eq r.path (codes "/api/auth")
      then auth r w s
      else if text_eq r.path (codes "/api/passkey-login-begin")
      then passkey_login_begin w s
      else if text_eq r.path (codes "/api/passkey-login-finish")
      then passkey_login_finish w s
      else (passed, s)

  unfoldable pub after_middleware : Request → World → Reply × Server → Reply × Server
  unfolding handle
  after_middleware r w (passed, s) = handle r w s
  after_middleware r w (reply, s) = (reply, s)

  -- A call of the API.
  unfoldable pub call : Request → World → Server → Reply × Server
  unfolding auth_middleware after_middleware
  call r w s = after_middleware r w (auth_middleware o r s)

  -- A call of a route; `passes` is time that passes between two calls.
  unfoldable pub step : Event → Server → Reply × Server
  unfolding call auto_login hub_login
  step (calls r w) s = call r w s
  step (auto_logs_in r pw) s = auto_login r pw s
  step (hub_logs_in token tunnel_token) s = hub_login token tunnel_token s
  step (passes d) s = (passed, record s { now = s.now + d })

  unfoldable pub run_all : List Event → Server → Server
  unfolding step
  run_all [] s = s
  run_all (e ∷ es) s = run_all es (step e s).1
