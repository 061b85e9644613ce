-- ===== src/Web/Sessions.antt =====
-- Which calls the sessions let pass.
use altclaw.Common.{
  ℕ, ◌+◌, ◌*◌, ◌≤◌, Bool, true, false, Option, none, some, List, [], ◌∷◌, ◌||◌, Bytes, bytes_eq,
  text_eq, text_eq_iff, leb, if◌then◌else◌, lookup, lookup-remove, lookup-insert, arith, ◌≡◌, refl,
  subst, sym, ap, ◌∙◌,
}
use altclaw.Web.{
  Request, Server, Reply, passed, logged_in, logged_out, assertion, refused, failed_bind,
  failed_rate, Event, day, Outside, is_public, is_gui_local, is_expired, forget, check_session,
  check_cookie, new_server, rotate_password, create_session, auth_middleware, log_out,
}
use altclaw.Web.Login.{step, run_all}
use altclaw.Web.Effects.{
  presented, cookie_of, is_plain, Effect, stays, expires, closes, opens, rotates,
}
use altclaw.Web.Steps.{step-Effect}

abbrev pub is_passed : Reply → Bool
is_passed passed = true
is_passed _ = false

-- What the replies say: a session was opened at a time, or closed by its client.
pub data Mark : Type 0 where
  granted : Bytes → ℕ → Mark
  revoked : Bytes → Mark

-- The last mark of the session, if it was opened and not closed since, at most 30 days ago.
abbrev pub is_live : ℕ → Bytes → List Mark → Bool
is_live now id [] = false
is_live now id (granted i t ∷ h) = if text_eq i id then leb now (t + 30 * day) else is_live now id h
is_live now id (revoked i ∷ h) = if text_eq i id then false else is_live now id h

abbrev pub has_live : Option Bytes → ℕ → List Mark → Bool
has_live none now h = false
has_live (some id) now h = is_live now id h

abbrev closed : Option Bytes → List Mark → List Mark
closed none h = h
closed (some id) h = revoked id ∷ h

-- The marks after the reply to a call, the last one first.
abbrev marked : Reply → Option Bytes → ℕ → List Mark → List Mark
marked (logged_in id _) cookie now h = granted id now ∷ h
marked logged_out cookie now h = closed cookie h
marked _ cookie now h = h

-- The marks that the replies of a run leave.
unfoldable pub history : Outside → List Event → Server → List Mark → List Mark
history o [] s h = h
history o (e ∷ es) s h = history o es (step o e s).1 (marked (step o e s).0 (cookie_of e) s.now h)

abbrev valid_at : ℕ → Option ℕ → Bool
valid_at now none = false
valid_at now (some created) = leb now (created + 30 * day)

-- The sessions say at this and all later times what the marks say.
Agrees : Server → List Mark → Type 0
Agrees s h =
    (now : ℕ) (id : Bytes) → s.now ≤ now → valid_at now (lookup id s.sessions) ≡ is_live now id h

-- How a call may end: with a new session, with the client's session closed, or with sessions as before
-- but for one that has expired.
AgreesAfter : Reply × Server → Option Bytes → ℕ → List Mark → Type 0
AgreesAfter (reply, s) cookie now h = Agrees s (marked reply cookie now h)

module _ (o : Outside) where
  opened-Agrees :
      (age : ℕ) (cookie : Option Bytes) (s s' : Server) (h : List Mark)
      → s'.sessions ≡ s.sessions
      → s'.now ≡ s.now
      → Agrees s h
      → AgreesAfter (create_session o age s') cookie s.now h
  unfolding create_session AgreesAfter Agrees
  opened-Agrees age cookie s s' h e n a now id le = ground (
    arith,
    a now id (omega (arith, n)),
    lookup-insert (o.random s'.drawn) id s'.now s'.sessions,
    ap (lookup id) e,
  )

  stays-Agrees :
      (reply : Reply) (s' : Server) (cookie : Option Bytes) (s : Server) (h : List Mark)
      → is_plain reply ≡ true
      → s'.sessions ≡ s.sessions
      → s.now ≤ s'.now
      → Agrees s h
      → Agrees s' (marked reply cookie s.now h)
  unfolding Agrees
  stays-Agrees reply s' cookie s h p e le a now id le' =
      by_reply reply p (ap (λ m. valid_at now (lookup id m)) e ∙ a now id (omega (arith, le)))
    where
      by_reply :
          (r : Reply)
          → is_plain r ≡ true
          → valid_at now (lookup id s'.sessions) ≡ is_live now id h
          → valid_at now (lookup id s'.sessions) ≡ is_live now id (marked r cookie s.now h)
      by_reply passed q k = k
      by_reply (logged_in i n) q k = absurd (cc)
      by_reply logged_out q k = absurd (cc)
      by_reply (assertion c) q k = k
      by_reply (refused n) q k = k
      by_reply failed_bind q k = k
      by_reply failed_rate q k = k

  forget-Agrees :
      (id : Bytes) (s : Server) (h : List Mark) → Agrees s h → Agrees (forget id s) (revoked id ∷ h)
  unfolding Agrees
  forget-Agrees i s h a now id le = ground (arith, a now id le, lookup-remove i id s.sessions)

  log_out-Agrees :
      (cookie : Option Bytes) (s : Server) (h : List Mark)
      → Agrees s h
      → AgreesAfter (log_out cookie s) cookie s.now h
  unfolding log_out AgreesAfter
  log_out-Agrees none s h a = a
  log_out-Agrees (some id) s h a = forget-Agrees id s h a

  -- A session that has expired has no live mark, so that it may go.
  expired-Agrees :
      (i : Bytes) (created : ℕ) (s : Server) (h : List Mark)
      → lookup i s.sessions ≡ some created
      → is_expired s.now created ≡ true
      → Agrees s h
      → Agrees (forget i s) h
  unfolding Agrees
  expired-Agrees i created s h l x a now id le =
      ground (arith, a now id le, lookup-remove i id s.sessions, text_eq_iff i id)

  Effect-Agrees :
      (s : Server) (shown cookie : Option Bytes) (x : Reply × Server) (h : List Mark)
      → Effect o s shown cookie x
      → Agrees s h
      → AgreesAfter x cookie s.now h
  unfolding AgreesAfter rotate_password
  Effect-Agrees s shown cookie x h (stays p e pw d le) a = stays-Agrees x.0 x.1 cookie s h p e le a
  Effect-Agrees s shown cookie x h (expires id created l x' e) a =
      subst (λ y. AgreesAfter y cookie s.now h) (sym e) (expired-Agrees id created s h l x' a)
  Effect-Agrees s shown cookie x h (closes e) a =
      subst (λ y. AgreesAfter y cookie s.now h) (sym e) (log_out-Agrees cookie s h a)
  Effect-Agrees s shown cookie x h (opens age s' e pw d n sh k) a =
      subst (λ y. AgreesAfter y cookie s.now h) (sym k) (opened-Agrees age cookie s s' h e n a)
  Effect-Agrees s shown cookie x h (rotates age sh k) a =
      subst (λ y. AgreesAfter y cookie s.now h) (sym k)
        (opened-Agrees age cookie s (rotate_password o s) h refl refl a)

  run_all-Agrees :
      (es : List Event) (s : Server) (h : List Mark)
      → Agrees s h
      → Agrees (run_all o es s) (history o es s h)
  unfolding run_all history AgreesAfter
  run_all-Agrees [] s h a = a
  run_all-Agrees (e ∷ es) s h a =
      run_all-Agrees es (step o e s).1 (marked (step o e s).0 (cookie_of e) s.now h)
        (Effect-Agrees s (presented e) (cookie_of e) (step o e s) h (step-Effect o e s) a)

  check_cookie-has_live :
      (cookie : Option Bytes) (s : Server) (h : List Mark)
      → Agrees s h
      → is_passed (check_cookie cookie s).0 ≡ has_live cookie s.now h
  unfolding check_cookie check_session Agrees
  check_cookie-has_live none s h a = refl
  check_cookie-has_live (some id) s h a =
      by_session (lookup id s.sessions) (a s.now id (omega arith))
    where
      by_session :
          (found : Option ℕ)
          → valid_at s.now found ≡ is_live s.now id h
          → is_passed (check_session found id s).0 ≡ is_live s.now id h
      by_session none e = e
      by_session (some created) e = ground arith

  -- After any calls and times between them, a new server lets a call of the API pass exactly if its
  -- path needs no session, or it comes from the window of the program on the same machine, or its
  -- cookie names a session that a login opened at most 30 days ago (the last one, if it was opened
  -- more than once) and that no client has closed since.
  pub auth_middleware-has_live :
      (start : ℕ) (es : List Event) (r : Request)
      → let s = run_all o es (new_server o start) in
        is_passed (auth_middleware o r s).0
        ≡ is_public r.path
          || is_gui_local o r
          || has_live r.cookie s.now (history o es (new_server o start) [])
  unfolding auth_middleware Agrees lookup
  auth_middleware-has_live start es r =
      let s = run_all o es (new_server o start) in
      let h = history o es (new_server o start) [] in
      ground (
        arith,
        check_cookie-has_live r.cookie s h
            (run_all-Agrees es (new_server o start) [] (λ now id le. refl)),
      )
