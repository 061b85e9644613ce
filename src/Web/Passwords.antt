-- ===== src/Web/Passwords.antt =====
-- How often a password admits a login.
use altclaw.Common.{
  ℕ, ◌+◌, ◌≤◌, ◌<◌, Bool, true, false, Option, none, some, List, [], ◌∷◌, ◌&&◌, Bytes, bytes_eq,
  text_eq, text_eq_iff, if◌then◌else◌, arith, ◌≡◌, ◌≢◌, ◌⊎◌, inl, inr, refl, sym, ◌∙◌, subst,
  Bool-cases,
}
use altclaw.Web.{
  Server, Reply, passed, logged_in, logged_out, assertion, refused, failed_bind, failed_rate, Event,
  Outside, new_server, rotate_password, create_session, log_out,
}
use altclaw.Web.Login.{step, run_all}
use altclaw.Web.Effects.{
  presented, cookie_of, is_plain, Effect, stays, expires, closes, opens, rotates,
}
use altclaw.Web.Steps.{step-Effect}

abbrev is_login : Reply → Bool
is_login (logged_in id age) = true
is_login _ = false

abbrev is_text : Bytes → Option Bytes → Bool
is_text pw none = false
is_text pw (some t) = text_eq t pw

abbrev count : Bool → ℕ
count b = if b then 1 else 0

-- How many calls presented the password and opened a session.
unfoldable pub logins : Outside → Bytes → List Event → Server → ℕ
logins o pw [] s = 0
logins o pw (e ∷ es) s =
    count (is_login (step o e s).0 && is_text pw (presented e)) + logins o pw es (step o e s).1

-- A password that was not used is kept.
record IsKept (s : Server) (shown : Option Bytes) (x : Reply × Server) : Type 0 where
  pub same : x.1.password ≡ s.password
  pub grows : s.drawn ≤ x.1.drawn
  pub unused : (pw : Bytes) → is_login x.0 && is_text pw shown ≡ false

module _ (o : Outside) where
  -- One that was used is replaced.
  record IsRotated (s : Server) (shown : Option Bytes) (x : Reply × Server) : Type 0 where
    pub used : shown ≡ some s.password
    pub fresh : x.1.password ≡ o.random s.drawn
    pub grows : s.drawn < x.1.drawn

  abbrev Rotates : Server → Option Bytes → Reply × Server → Type 0
  Rotates s shown x = IsKept s shown x ⊎ IsRotated s shown x

  stays-unused :
      (reply : Reply) (pw : Bytes) (shown : Option Bytes)
      → is_plain reply ≡ true
      → is_login reply && is_text pw shown ≡ false
  stays-unused (logged_in id age) pw shown p = absurd (cc)
  stays-unused logged_out pw shown p = absurd (cc)
  stays-unused passed pw shown p = refl
  stays-unused (assertion c) pw shown p = refl
  stays-unused (refused n) pw shown p = refl
  stays-unused failed_bind pw shown p = refl
  stays-unused failed_rate pw shown p = refl

  Effect-Rotates :
      (s : Server) (shown cookie : Option Bytes) (x : Reply × Server)
      → Effect o s shown cookie x
      → Rotates s shown x
  unfolding create_session rotate_password log_out
  Effect-Rotates s shown cookie x (stays p e pw d le) =
      inl (record { same = pw; grows = omega (arith, d); unused = λ t. stays-unused x.0 t shown p })
  Effect-Rotates s shown cookie x (expires id created l h e) =
      subst (Rotates s shown) (sym e)
        (inl (record { same = refl; grows = omega arith; unused = λ t. refl }))
  Effect-Rotates s shown none x (closes e) =
      subst (Rotates s shown) (sym e)
        (inl (record { same = refl; grows = omega arith; unused = λ t. refl }))
  Effect-Rotates s shown (some id) x (closes e) =
      subst (Rotates s shown) (sym e)
        (inl (record { same = refl; grows = omega arith; unused = λ t. refl }))
  Effect-Rotates s shown cookie x (opens age s' e pw d n sh k) =
      subst (Rotates s shown) (sym k)
        (inl (record { same = pw; grows = omega (arith, d); unused = λ t. rw sh }))
  Effect-Rotates s shown cookie x (rotates age sh k) =
      subst (Rotates s shown) (sym k)
        (inr (record { used = sh; fresh = refl; grows = omega arith }))

  step-Rotates : (e : Event) (s : Server) → Rotates s (presented e) (step o e s)
  step-Rotates e s = Effect-Rotates s (presented e) (cookie_of e) (step o e s) (step-Effect o e s)

  drawn-step : (e : Event) (s : Server) → s.drawn ≤ (step o e s).1.drawn
  drawn-step e s = elim (step-Rotates e s) [ inl k ↦ k.grows | inr k ↦ omega (arith, k.grows) ]

  drawn-run_all : (es : List Event) (s : Server) → s.drawn ≤ (run_all o es s).drawn
  unfolding run_all
  drawn-run_all [] s = omega arith
  drawn-run_all (e ∷ es) s = omega (arith, drawn-step e s, drawn-run_all es (step o e s).1)

  -- A text that is no password now and is not drawn later admits no login.
  logins-none :
      (pw : Bytes) (es : List Event) (s : Server)
      → s.password ≢ pw
      → ((k : ℕ) → s.drawn ≤ k → k < (run_all o es s).drawn → o.random k ≢ pw)
      → logins o pw es s ≡ 0
  unfolding logins run_all
  logins-none pw [] s n new = refl
  logins-none pw (e ∷ es) s n new =
      let later = drawn-run_all es (step o e s).1 in
      elim (step-Rotates e s) [
        | inl k ↦ ground (
          arith,
          k.unused pw,
          logins-none pw es (step o e s).1 (λ q. n (sym k.same ∙ q))
              (λ i le lt. new i (omega (arith, k.grows)) lt),
        )
        | inr k ↦ ground (
          arith,
          k.used,
          text_eq_iff s.password pw,
          logins-none pw es (step o e s).1
              (λ q. new s.drawn (omega arith) (omega (arith, later, k.grows)) (sym k.fresh ∙ q))
              (λ i le lt. new i (omega (arith, k.grows)) lt),
        )
      ]

  -- The passwords and sessions that are drawn up to a number are different.
  abbrev pub AreDistinct : ℕ → Type 0
  AreDistinct n = (i j : ℕ) → i < n → j < n → o.random i ≡ o.random j → i ≡ j

  logins-le :
      (pw : Bytes) (es : List Event) (s : Server) (i : ℕ)
      → s.password ≡ o.random i
      → i < s.drawn
      → AreDistinct (run_all o es s).drawn
      → logins o pw es s ≤ 1
  unfolding logins run_all
  logins-le pw [] s i e lt distinct = omega arith
  logins-le pw (ev ∷ es) s i e lt distinct =
      let next = (step o ev s).1 in
      let later = drawn-run_all es next in
      elim (step-Rotates ev s) [
        | inl k ↦ ground (
          arith,
          k.unused pw,
          logins-le pw es next i (k.same ∙ e) (omega (arith, k.grows)) distinct,
        )
        | inr k ↦ elim (Bool-cases (text_eq s.password pw)) [
          | inl same ↦
              let is_pw : o.random i ≡ pw = sym e ∙ (text_eq_iff s.password pw).0 same in
              let none_left =
                logins-none pw es next
                  (λ q. absurd (
                    omega (
                      arith,
                      lt,
                      distinct s.drawn i (omega (arith, later, k.grows))
                          (omega (arith, later, k.grows)) (sym k.fresh ∙ (q ∙ sym is_pw)),
                    )))
                  (λ j le below q. absurd (
                    omega (
                      arith,
                      lt,
                      k.grows,
                      distinct j i below (omega (arith, later, k.grows)) (q ∙ sym is_pw),
                    ))) in
              ground (arith, none_left)
          | inr other ↦ ground (
            arith,
            k.used,
            logins-le pw es next s.drawn k.fresh (omega (arith, k.grows)) distinct,
          )
        ]
      ]

-- If the passwords and sessions that a new server draws are different, then in every sequence of its
-- calls, one after the other, each password opens at most one session, by `Auth` or `Auth_AutoLogin`.
pub logins-once :
    (o : Outside) (start : ℕ) (pw : Bytes) (es : List Event)
    → AreDistinct o (run_all o es (new_server o start)).drawn
    → logins o pw es (new_server o start) ≤ 1
logins-once o start pw es distinct =
    logins-le o pw es (new_server o start) 0 refl (omega arith) distinct
