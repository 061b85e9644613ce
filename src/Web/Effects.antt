-- ===== src/Web/Effects.antt =====
-- What the calls change, by the kinds of their effects.
use altclaw.Common.{
  ℕ, suc, ◌*◌, ◌/◌, ◌≤◌, Bool, true, false, Option, none, some, ◌&&◌, ◌||◌, not, Bytes, bytes_eq,
  text_eq, text_eq_iff, if◌then◌else◌, lookup, index, take, drop, codes, arith, ◌≡◌, refl, ap,
}
use altclaw.IpFilter.{is_blank}
use altclaw.Web.{
  Request, World, Rate, allowed, exceeded, failed, Server, Reply, logged_in, logged_out, refused,
  failed_bind, failed_rate, Event, calls, auto_logs_in, hub_logs_in, passes, Outside, is_expired,
  forget, rotate_password, create_session, log_out, in_window, rp_id, is_local_request, second,
}
use altclaw.Web.Login.{
  has_passkeys_for_origin, check_password, after_rate, log_in, auth, auto_login, check_signature,
  check_parts, hub_login,
}

-- The password that a call presents.
abbrev pub presented : Event → Option Bytes
presented (calls r w) =
    if text_eq r.path (codes "/api/auth") then (if r.is_delete then none else w.body) else none
presented (auto_logs_in r pw) = some pw
presented (hub_logs_in token tunnel_token) = none
presented (passes d) = none

abbrev pub cookie_of : Event → Option Bytes
cookie_of (calls r w) = r.cookie
cookie_of _ = none

-- A reply that neither opens nor closes a session.
abbrev pub is_plain : Reply → Bool
is_plain (logged_in id age) = false
is_plain logged_out = false
is_plain _ = true

module _ (o : Outside) where
  -- Of a call that presents a password or none, with a cookie: it may leave sessions and password, drop
  -- a session that has expired, close the client's session, open one without a password, or open one
  -- and replace the password that was presented.
  pub data Effect (s : Server) (shown cookie : Option Bytes) (x : Reply × Server) : Type 0 where
    stays :
        is_plain x.0 ≡ true
        → x.1.sessions ≡ s.sessions
        → x.1.password ≡ s.password
        → x.1.drawn ≡ s.drawn
        → s.now ≤ x.1.now
        → Effect s shown cookie x
    expires :
        (id : Bytes) (created : ℕ)
        → lookup id s.sessions ≡ some created
        → is_expired s.now created ≡ true
        → x ≡ (refused 401, forget id s)
        → Effect s shown cookie x
    closes : x ≡ log_out cookie s → Effect s shown cookie x
    opens :
        (age : ℕ) (s' : Server)
        → s'.sessions ≡ s.sessions
        → s'.password ≡ s.password
        → s'.drawn ≡ s.drawn
        → s'.now ≡ s.now
        → shown ≡ none
        → x ≡ create_session o age s'
        → Effect s shown cookie x
    rotates :
        (age : ℕ)
        → shown ≡ some s.password
        → x ≡ create_session o age (rotate_password o s)
        → Effect s shown cookie x

  pub unchanged :
      {shown cookie : Option Bytes} (reply : Reply) (s : Server)
      → is_plain reply ≡ true
      → Effect s shown cookie (reply, s)
  unchanged reply s e = stays e refl refl refl (omega arith)

  check_password-Effect :
      (body cookie : Option Bytes) (s : Server) → Effect s body cookie (check_password o body s)
  unfolding check_password
  check_password-Effect none cookie s = unchanged failed_bind s refl
  check_password-Effect (some pw) cookie s = by_text (text_eq pw s.password) refl
    where
      by_text :
          (b : Bool)
          → text_eq pw s.password ≡ b
          → Effect s
              (some pw)
              cookie
              (if b then create_session o (86400 * 7) (rotate_password o s) else (refused 401, s))
      by_text true e = rotates (86400 * 7) (ap some ((text_eq_iff pw s.password).0 e)) refl
      by_text false e = unchanged (refused 401) s refl

  after_rate-Effect :
      (rate : Rate) (body cookie : Option Bytes) (s : Server)
      → Effect s body cookie (after_rate o rate body s)
  unfolding after_rate
  after_rate-Effect allowed body cookie s = check_password-Effect body cookie s
  after_rate-Effect exceeded body cookie s = unchanged (refused 429) s refl
  after_rate-Effect failed body cookie s = unchanged failed_rate s refl

  pub auth-Effect :
      (r : Request) (w : World) (s : Server)
      → Effect s (if r.is_delete then none else w.body) r.cookie (auth o r w s)
  unfolding auth log_in
  auth-Effect r w s =
      by_tests r.is_delete
        (not (is_blank r.from.x_client_ip) && has_passkeys_for_origin o w.passkeys (rp_id r))
    where
      by_tests :
          (d p : Bool)
          → Effect s (if d then none else w.body) r.cookie (
              if d
              then log_out r.cookie s
              else if p
              then (refused 403, s)
              else after_rate o w.rate w.body s)
      by_tests true p = closes refl
      by_tests false true = unchanged (refused 403) s refl
      by_tests false false = after_rate-Effect w.rate w.body r.cookie s

  pub auto_login-Effect :
      (r : Request) (pw : Bytes) (s : Server) → Effect s (some pw) none (auto_login o r pw s)
  unfolding auto_login
  auto_login-Effect r pw s =
      by_tests (is_local_request o r) (is_blank pw) (text_eq pw s.password) refl
    where
      by_tests :
          (l b e : Bool)
          → text_eq pw s.password ≡ e
          → Effect s (some pw) none (
              if not l
              then (refused 403, s)
              else if b || not e
              then (refused 403, s)
              else create_session o (86400 * 30) (rotate_password o s))
      by_tests false b e h = unchanged (refused 403) s refl
      by_tests true true e h = unchanged (refused 403) s refl
      by_tests true false false h = unchanged (refused 403) s refl
      by_tests true false true h =
          rotates (86400 * 30) (ap some ((text_eq_iff pw s.password).0 h)) refl

  -- A session is opened or the call is refused.
  opened_if :
      {cookie : Option Bytes} (b : Bool) (age : ℕ) (s : Server)
      → Effect s none cookie (if b then create_session o age s else (refused 403, s))
  opened_if true age s = opens age s refl refl refl refl refl refl
  opened_if false age s = unchanged (refused 403) s refl

  check_signature-Effect :
      (t sig ts : Bytes) (s : Server) → Effect s none none (check_signature o t sig ts s)
  unfolding check_signature
  check_signature-Effect t sig ts s =
      by_tests (in_window (s.now / second) (o.parse_int ts)) (is_blank t)
    where
      login : Reply × Server
      login =
          if text_eq sig (o.hmac t ts) then create_session o (86400 * 30) s else (refused 403, s)

      by_tests :
          (x b : Bool)
          → Effect s none none
              (if not x then (refused 403, s) else if b then (refused 403, s) else login)
      by_tests false b = unchanged (refused 403) s refl
      by_tests true true = unchanged (refused 403) s refl
      by_tests true false = opened_if (text_eq sig (o.hmac t ts)) (86400 * 30) s

  pub hub_login-Effect : (token t : Bytes) (s : Server) → Effect s none none (hub_login o token t s)
  unfolding hub_login check_parts
  hub_login-Effect token t s = by_parts (is_blank token) (index token (codes ":"))
    where
      by_parts :
          (b : Bool) (found : Option ℕ)
          → Effect s none none (if b then (refused 400, s) else check_parts o found token t s)
      by_parts true found = unchanged (refused 400) s refl
      by_parts false none = unchanged (refused 400) s refl
      by_parts false (some i) = check_signature-Effect t (take i token) (drop (suc i) token) s
