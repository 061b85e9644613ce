-- ===== src/Web/Steps.antt =====
-- The kinds of effects of whole calls.
use altclaw.Common.{
  ℕ, ◌*◌, Bool, true, false, Option, none, some, List, [], ◌∷◌, ◌||◌, Bytes, bytes_eq, text_eq,
  if◌then◌else◌, lookup, remove, codes, arith, ◌≡◌, refl,
}
use altclaw.Web.{
  Request, Passkey, World, Server, passed, refused, Event, calls, auto_logs_in, hub_logs_in, passes,
  Outside, is_public, is_gui_local, is_expired, forget, check_session, check_cookie, create_session,
  auth_middleware, login_begun, passkey_login_begin,
}
use altclaw.Web.Login.{
  auth, finish_begun, passkey_login_finish, handle, after_middleware, call, step,
}
use altclaw.Web.Effects.{
  presented, cookie_of, Effect, stays, expires, opens, unchanged, auth-Effect, auto_login-Effect,
  hub_login-Effect,
}

module _ (o : Outside) where
  passkey_login_begin-Effect :
      (w : World) (cookie : Option Bytes) (s : Server)
      → Effect o s none cookie (passkey_login_begin w s)
  unfolding passkey_login_begin
  passkey_login_begin-Effect w cookie s = by_world w.passkeys w.begins
    where
      by_world :
          (ks : Option (List Passkey)) (c : Option Bytes)
          → Effect o s none cookie (login_begun ks c s)
      by_world none c = unchanged o (refused 404) s refl
      by_world (some []) c = unchanged o (refused 404) s refl
      by_world (some (k ∷ ks)) none = unchanged o (refused 500) s refl
      by_world (some (k ∷ ks)) (some c) = stays refl refl refl refl (omega arith)

  passkey_login_finish-Effect :
      (w : World) (cookie : Option Bytes) (s : Server)
      → Effect o s none cookie (passkey_login_finish o w s)
  unfolding passkey_login_finish finish_begun
  passkey_login_finish-Effect w cookie s =
      by_world w.has_webauthn (lookup w.query_challenge s.passkey_sessions)
    where
      taken : Server
      taken = record s { passkey_sessions = remove w.query_challenge s.passkey_sessions }

      by_accepted :
          (b : Bool)
          → Effect o s none cookie
              (if b then create_session o (86400 * 7) taken else (refused 401, taken))
      by_accepted true = opens (86400 * 7) taken refl refl refl refl refl refl
      by_accepted false = stays refl refl refl refl (omega arith)

      by_world :
          (b : Bool) (found : Option ℕ)
          → Effect o s none cookie (if b then finish_begun o found w taken else (refused 500, s))
      by_world false found = unchanged o (refused 500) s refl
      by_world true none = stays refl refl refl refl (omega arith)
      by_world true (some n) = by_accepted (w.finishes n)

  handle-Effect :
      (r : Request) (w : World) (s : Server)
      → Effect o s (presented (calls r w)) r.cookie (handle o r w s)
  unfolding handle
  handle-Effect r w s =
      by_path (text_eq r.path (codes "/api/auth"))
        (text_eq r.path (codes "/api/passkey-login-begin"))
        (text_eq r.path (codes "/api/passkey-login-finish"))
    where
      by_path :
          (x y z : Bool)
          → Effect o s (if x then (if r.is_delete then none else w.body) else none) r.cookie (
              if x
              then auth o r w s
              else if y
              then passkey_login_begin w s
              else if z
              then passkey_login_finish o w s
              else (passed, s))
      by_path true y z = auth-Effect o r w s
      by_path false true z = passkey_login_begin-Effect w r.cookie s
      by_path false false true = passkey_login_finish-Effect w r.cookie s
      by_path false false false = unchanged o passed s refl

  call-Effect :
      (r : Request) (w : World) (s : Server)
      → Effect o s (presented (calls r w)) r.cookie (call o r w s)
  unfolding call auth_middleware check_cookie check_session after_middleware
  call-Effect r w s = by_public (is_public r.path || is_gui_local o r)
    where
      by_age :
          (b : Bool) (id : Bytes) (created : ℕ)
          → lookup id s.sessions ≡ some created
          → is_expired s.now created ≡ b
          → Effect o s
              (presented (calls r w))
              r.cookie
              (after_middleware o r w (if b then (refused 401, forget id s) else (passed, s)))
      by_age true id created l x = expires id created l x refl
      by_age false id created l x = handle-Effect r w s

      by_session :
          (found : Option ℕ) (id : Bytes)
          → lookup id s.sessions ≡ found
          → Effect o s
              (presented (calls r w))
              r.cookie
              (after_middleware o r w (check_session found id s))
      by_session none id l = unchanged o (refused 401) s refl
      by_session (some created) id l = by_age (is_expired s.now created) id created l refl

      by_cookie :
          (cookie : Option Bytes)
          → Effect o s
              (presented (calls r w))
              r.cookie
              (after_middleware o r w (check_cookie cookie s))
      by_cookie none = unchanged o (refused 401) s refl
      by_cookie (some id) = by_session (lookup id s.sessions) id refl

      by_public :
          (b : Bool)
          → Effect o s
              (presented (calls r w))
              r.cookie
              (after_middleware o r w (if b then (passed, s) else check_cookie r.cookie s))
      by_public true = handle-Effect r w s
      by_public false = by_cookie r.cookie

  pub step-Effect : (e : Event) (s : Server) → Effect o s (presented e) (cookie_of e) (step o e s)
  unfolding step
  step-Effect (calls r w) s = call-Effect r w s
  step-Effect (auto_logs_in r pw) s = auto_login-Effect o r pw s
  step-Effect (hub_logs_in token t) s = hub_login-Effect o token t s
  step-Effect (passes d) s = stays refl refl refl refl (omega arith)
