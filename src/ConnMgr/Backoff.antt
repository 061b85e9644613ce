-- ===== src/ConnMgr/Backoff.antt =====
-- How long the goroutine of a connection waits between its rounds.
use altclaw.Common.{
  ℕ, zero, suc, ◌+◌, ◌*◌, ◌^◌, ◌≤◌, min, Bool, true, false, Option, none, some, List, [], ◌∷◌, ◌++◌,
  Bytes, if◌then◌else◌, length, arith, ◌≡◌, refl, ◌⊎◌, inl, inr, Bool-cases, All, All-append,
  length-append, ◌∙◌, sym, subst, ap₂,
}
use native.Mathlib.Numerals.{unary_clauses}
use altclaw.ConnMgr.Runs.{conn_of, rounds-lift}
use altclaw.ConnMgr.{
  Outside, Status, reconnecting, connected, connecting, on_connect, on_message, on_close, on_error,
  Session, Conn, ConnEntry, Call, Round, second, max_backoff, Protocol, ensure_warm, dispatch,
  dispatch_error, read_loop, wait, dial_failed, dispatch_close, override_error, lost, connect,
  dialed, with_protocol, new_protocol, round, rounds, start, retry_or,
}

abbrev pub IsBounded : ℕ → Type 0
IsBounded d = (second ≤ d) × (d ≤ max_backoff)

-- The wait number n, from 0, while no connection is stable.
abbrev pub delay : ℕ → ℕ
delay n = min (second * 2 ^ n) max_backoff

abbrev pub delays : ℕ → List ℕ
delays zero = []
delays (suc n) = delays n ++ delay n ∷ []

delay-double : (b n : ℕ) → b ≡ delay n → min (b * 2) max_backoff ≡ delay (suc n)
delay-double b n e = simp unary_clauses (double (2 ^ n) b e)
  where
    double :
        (p d : ℕ)
        → d ≡ min (second * p) max_backoff
        → min (d * 2) max_backoff ≡ min (second * (p * 2)) max_backoff
    double p d h = ground arith

length-snoc : (ws : List ℕ) (b : ℕ) → length (ws ++ b ∷ []) ≡ suc (length ws)
length-snoc ws b = omega (arith, length-append ws (b ∷ []))

-- Nothing about the waits has changed.
abbrev Keeps : Conn → Conn → Type 0
Keeps c c' = (c'.backoff ≡ c.backoff) × (c'.waits ≡ c.waits)

module _ (o : Outside) where
  dispatch-Keeps : (call : Call) (c : Conn) → Keeps c (dispatch o call c).1
  unfolding dispatch
  dispatch-Keeps call c = (ground arith, ground arith)

  ensure_warm-Keeps : (c : Conn) → Keeps c (ensure_warm o c)
  unfolding ensure_warm
  ensure_warm-Keeps c = (ground arith, ground arith)

  read_loop-Keeps : (ms : List Bytes) (c : Conn) → Keeps c (read_loop o ms c)
  unfolding read_loop
  read_loop-Keeps [] c = (refl, refl)
  read_loop-Keeps (m ∷ ms) c =
      let c1 : Conn = record c { messages_in = c.messages_in + 1 } in
      let c2 = ensure_warm o c1 in
      let (b1, w1) = ensure_warm-Keeps c1 in
      let (b2, w2) = dispatch-Keeps (on_message m) c2 in
      let (b3, w3) = read_loop-Keeps ms (dispatch o (on_message m) c2).1 in
      (b3 ∙ b2 ∙ b1, w3 ∙ w2 ∙ w1)

  dispatch_error-Keeps : (e : Bytes) (c : Conn) → Keeps c (dispatch_error o e c).1
  unfolding dispatch_error
  dispatch_error-Keeps e c = dispatch-Keeps (on_error e) c

  dispatch_close-Keeps : (e : Option Bytes) (c : Conn) → Keeps c (dispatch_close o e c)
  unfolding dispatch_close
  dispatch_close-Keeps none c = (refl, refl)
  dispatch_close-Keeps (some e) c = dispatch-Keeps (on_close e) c

  override_error-Keeps : (e : Option Bytes) (c : Conn) → Keeps c (override_error o e c).1
  unfolding override_error
  override_error-Keeps none c = (refl, refl)
  override_error-Keeps (some e) c = dispatch_error-Keeps e c

  -- What a round that backs off by `b` leaves.
  abbrev Waited : ℕ → Conn → Round → Type 0
  Waited b c r =
      (((conn_of r).waits ≡ c.waits) × ((conn_of r).backoff ≡ b))
      ⊎ (((conn_of r).waits ≡ c.waits ++ b ∷ []) × ((conn_of r).backoff ≡ min (b * 2) max_backoff))

  wait-Waited : (c : Conn) → Waited c.backoff c (wait o c)
  unfolding wait
  wait-Waited c = ground arith

  retry_or-Waited : (b : Bool) (s : Status) (c : Conn) → Waited c.backoff c (retry_or o b s c)
  retry_or-Waited true s c = wait-Waited (record c { status = reconnecting })
  retry_or-Waited false s c = inl (refl, refl)

  dial_failed-Waited : (e : Bytes) (c : Conn) → Waited c.backoff c (dial_failed o e c)
  unfolding dial_failed wait
  dial_failed-Waited e c =
      let c0 : Conn = record c { errors = c.errors + 1 } in
      ground (arith, dispatch_error-Keeps e c0)

  lost-Waited : (e : Option Bytes) (c : Conn) → Waited c.backoff c (lost o e c)
  unfolding lost wait
  lost-Waited e c =
      ground (arith, dispatch_close-Keeps e c, override_error-Keeps e (dispatch_close o e c))

  connect-Waited :
      (s : Session) (c : Conn)
      → Waited (if s.is_stable then second else c.backoff) c (connect o s c)
  unfolding connect
  connect-Waited s c =
      let c0 : Conn = record c { is_open = true; status = connected; tick = c.tick + 1 } in
      let c1 = ensure_warm o c0 in
      let c2 = read_loop o s.messages (dispatch o on_connect c1).1 in
      let c3 : Conn = record c2 {
        is_open = false;
        backoff = if s.is_stable then second else c2.backoff;
      } in
      ground (
        arith,
        ensure_warm-Keeps c0,
        dispatch-Keeps on_connect c1,
        read_loop-Keeps s.messages (dispatch o on_connect c1).1,
        lost-Waited s.ending c3,
      )

  -- The backoff of a round is the connection's or, after a stable session, a second.
  abbrev IsBackoff : Conn → ℕ → Type 0
  IsBackoff c b = (b ≡ c.backoff) ⊎ ((b ≡ second) × (t : ℕ) × ((o.session t).is_stable ≡ true))

  dialed-Waited :
      (e : Option Bytes) (c : Conn) → (b : ℕ) × IsBackoff c b × Waited b c (dialed o e c)
  unfolding dialed
  dialed-Waited (some e) c = (c.backoff, inl refl, dial_failed-Waited e c)
  dialed-Waited none c =
      let s = o.session c.tick in
      (
        if s.is_stable then second else c.backoff,
        elim (Bool-cases s.is_stable) [
          | inl e ↦ inr (rw e refl, c.tick, e)
          | inr e ↦ inl (rw e refl)
        ],
        connect-Waited s c,
      )

  with_protocol-Waited :
      (p : Option Protocol) (c : Conn) → (b : ℕ) × IsBackoff c b × Waited b c (with_protocol o p c)
  unfolding with_protocol
  with_protocol-Waited none c = (c.backoff, inl refl, inl (refl, refl))
  with_protocol-Waited (some p) c =
      dialed-Waited (o.dial c.tick) (record c { status = connecting; tick = c.tick + 1 })

  round-Waited : (c : Conn) → (b : ℕ) × IsBackoff c b × Waited b c (round o c)
  unfolding round
  round-Waited c = elim (Bool-cases (o.is_stopping c.tick)) [
    | inl e ↦ (c.backoff, inl refl, ground (arith, e))
    | inr e ↦
        let (b, i, h) =
          with_protocol-Waited (new_protocol c.entry.conn_type) (record c { tick = c.tick + 1 }) in
        (b, i, ground (arith, e, h))
  ]

  abbrev BoundedWaits : Conn → Type 0
  BoundedWaits c = IsBounded c.backoff × All IsBounded c.waits

  round-BoundedWaits : (c : Conn) → BoundedWaits c → BoundedWaits (conn_of (round o c))
  round-BoundedWaits c h =
      let (b, i, w) = round-Waited c in
      let bounded : IsBounded b = bounded_of b c i h.0 in
      elim w [
        | inl (ws, e) ↦ (subst IsBounded (sym e) bounded, subst (All IsBounded) (sym ws) h.1)
        | inr (ws, e) ↦ (
          subst IsBounded (sym e) (omega (arith, bounded)),
          subst (All IsBounded) (sym ws) (All-append IsBounded c.waits (b ∷ []) h.1 (bounded, tt)),
        )
      ]
    where
      bounded_of : (b : ℕ) (c : Conn) → IsBackoff c b → IsBounded c.backoff → IsBounded b
      bounded_of b c (inl e) h = subst IsBounded (sym e) h
      bounded_of b c (inr (e, t, s)) h = omega (arith, e)

  -- Every wait between two rounds lasts from one second to a minute.
  pub rounds-BoundedWaits :
      (n : ℕ) (e : ConnEntry) → All IsBounded (conn_of (rounds o n (start e))).waits
  rounds-BoundedWaits n e =
      (rounds-lift o BoundedWaits round-BoundedWaits n (start e) ((omega arith, omega arith), tt)).1

  module _ (unstable : (t : ℕ) → (o.session t).is_stable ≡ false) where
    abbrev Doubles : Conn → Type 0
    Doubles c = (c.backoff ≡ delay (length c.waits)) × (c.waits ≡ delays (length c.waits))

    unstable_backoff : (c : Conn) (b : ℕ) → IsBackoff c b → b ≡ c.backoff
    unstable_backoff c b (inl e) = e
    unstable_backoff c b (inr (e, t, s)) = absurd (ground (arith, unstable t))

    round-Doubles : (c : Conn) → Doubles c → Doubles (conn_of (round o c))
    round-Doubles c h =
        let (b, i, w) = round-Waited c in
        let same = unstable_backoff c b i in
        let n = length c.waits in
        elim w [
          | inl (ws, e) ↦ rw ws (rw e (same ∙ h.0, h.1))
          | inr (ws, e) ↦ rw ws (
              rw (length-snoc c.waits b)
                (e ∙ delay-double b n (same ∙ h.0), ap₂ (λ x y. x ++ y ∷ []) h.1 (same ∙ h.0)))
        ]

    -- As long as no connection lasts more than 30 seconds, each wait is twice the one before it, from
    -- one second up to a minute.
    pub rounds-delays :
        (n : ℕ) (e : ConnEntry)
        → let waits = (conn_of (rounds o n (start e))).waits in waits ≡ delays (length waits)
    rounds-delays n e = (rounds-lift o Doubles round-Doubles n (start e) (refl, refl)).1
