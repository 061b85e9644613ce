-- ===== src/ConnMgr/Closing.antt =====
-- What the handler script decides of the reconnection.
use altclaw.Common.{
  ℕ, ◌+◌, Bool, true, false, Option, none, some, List, [], ◌∷◌, ◌&&◌, ◌||◌, not, Bytes, codes,
  if◌then◌else◌, arith, ◌≡◌, refl, all, all-append, text_eq,
}
use altclaw.ConnMgr.Runs.{rounds-again}
use altclaw.ConnMgr.{
  Outside, connected, connecting, on_connect, on_message, on_close, on_error, Session, Handled,
  Conn, ConnEntry, Call, again, second, Protocol, ensure_warm, dispatch, dispatch_error, read_loop,
  wait, dial_failed, dispatch_close, override_error, override_of, decide, lost, connect, dialed,
  with_protocol, new_protocol, round, rounds, start, is_retryable_error,
}

abbrev is_error : Call → Bool
is_error (on_error _) = true
is_error _ = false

-- The script did not close the connection here, unless in `onError`.
abbrev pub keeps_open : Call × Handled → Bool
keeps_open (call, h) = is_error call || not h.closes

abbrev does_not_close : Call × Handled → Bool
does_not_close (call, h) = not h.closes

-- `onError` did not return true.
abbrev does_not_force : Call × Handled → Bool
does_not_force (call, h) = not (is_error call && not h.has_failed && text_eq h.value (codes "true"))

-- The flag is set by every close.
abbrev Flagged : Conn → Type 0
Flagged c = c.user_closed ≡ false → all does_not_close c.calls ≡ true

abbrev pub Unforced : Conn → Type 0
Unforced c = all does_not_force c.calls ≡ true

abbrev pub StaysOpen : Conn → Type 0
StaysOpen c = all keeps_open c.calls ≡ true

quiet_of : (cs : List (Call × Handled)) → all does_not_close cs ≡ true → all keeps_open cs ≡ true
quiet_of [] h = refl
quiet_of (c ∷ cs) h = ground (arith, quiet_of cs)

module _ (o : Outside) where
  dispatch-Flagged : (call : Call) (c : Conn) → Flagged c → Flagged (dispatch o call c).1
  unfolding dispatch
  dispatch-Flagged call c h =
      ground (arith, all-append does_not_close c.calls ((call, o.handle c.tick call) ∷ []))

  ensure_warm-Flagged : (c : Conn) → Flagged c → Flagged (ensure_warm o c)
  unfolding ensure_warm
  ensure_warm-Flagged c h = ground arith

  read_loop-Flagged : (ms : List Bytes) (c : Conn) → Flagged c → Flagged (read_loop o ms c)
  unfolding read_loop
  read_loop-Flagged [] c h = h
  read_loop-Flagged (m ∷ ms) c h =
      let c1 : Conn = record c { messages_in = c.messages_in + 1 } in
      read_loop-Flagged ms _
        (dispatch-Flagged (on_message m) (ensure_warm o c1) (ensure_warm-Flagged c1 h))

  dispatch_close-Flagged :
      (e : Option Bytes) (c : Conn) → Flagged c → Flagged (dispatch_close o e c)
  unfolding dispatch_close
  dispatch_close-Flagged none c h = h
  dispatch_close-Flagged (some e) c h = dispatch-Flagged (on_close e) c h

  -- An `onError` that does not return true leaves at most the default.
  dispatch_error-decides :
      (e : Bytes) (c : Conn) (default : Bool)
      → let (override, c') = dispatch_error o e c in
        (Flagged c → Flagged c')
        × (Unforced c' → Unforced c)
        × (StaysOpen c → StaysOpen c')
        × (Unforced c' → decide override default ≡ true → default ≡ true)
  unfolding dispatch_error dispatch override_of text_eq
  dispatch_error-decides e c default =
      let new : List (Call × Handled) = (on_error e, o.handle c.tick (on_error e)) ∷ [] in
      (
        dispatch-Flagged (on_error e) c,
        (λ u. ground (arith, all-append does_not_force c.calls new)),
        (λ s. ground (arith, all-append keeps_open c.calls new)),
        (λ u d. ground (arith, all-append does_not_force c.calls new)),
      )

  override_error-decides :
      (e : Option Bytes) (c : Conn) (default : Bool)
      → let (override, c') = override_error o e c in
        (Flagged c → Flagged c')
        × (Unforced c' → Unforced c)
        × (StaysOpen c → StaysOpen c')
        × (Unforced c' → decide override default ≡ true → default ≡ true)
  unfolding override_error
  override_error-decides none c default = ((λ h. h), (λ h. h), (λ h. h), (λ u d. d))
  override_error-decides (some e) c default = dispatch_error-decides e c default

  -- What holds between two rounds.
  abbrev Between : Conn → Type 0
  Between c = Flagged c × (Unforced c → StaysOpen c)

  dial_failed-Between :
      (e : Bytes) (c c' : Conn) → dial_failed o e c ≡ again c' → Between c → Between c'
  unfolding dial_failed wait
  dial_failed-Between e c c' r h =
      let c0 : Conn = record c { errors = c.errors + 1 } in
      let (f, u, s, d) =
        dispatch_error-decides e c0 (c.entry.reconnect && is_retryable_error (some e)) in
      let same_flag : c'.user_closed ≡ (dispatch_error o e c0).1.user_closed = ground arith in
      let same_calls : c'.calls ≡ (dispatch_error o e c0).1.calls = ground arith in
      rw (same_flag, same_calls) (f h.0, λ n. s (h.1 (u n)))

  lost-Between : (e : Option Bytes) (c c' : Conn) → lost o e c ≡ again c' → Flagged c → Between c'
  unfolding lost wait
  lost-Between e c c' r h =
      let c1 = dispatch_close o e c in
      let default = c.entry.reconnect && is_retryable_error e && not c1.user_closed in
      let (f, u, s, d) = override_error-decides e c1 default in
      let (override, c2) = override_error o e c1 in
      let decided : decide override default ≡ true = ground arith in
      let same_flag : c'.user_closed ≡ c2.user_closed = ground arith in
      let same_calls : c'.calls ≡ c2.calls = ground arith in
      let flagged = dispatch_close-Flagged e c h in
      rw (same_flag, same_calls)
        (f flagged, λ n. s (quiet_of c1.calls (flagged (ground (arith, d n decided)))))

  connect-Between : (s : Session) (c c' : Conn) → connect o s c ≡ again c' → Flagged c → Between c'
  unfolding connect
  connect-Between s c c' r h =
      let c0 : Conn = record c { is_open = true; status = connected; tick = c.tick + 1 } in
      let c1 = ensure_warm o c0 in
      let c2 = (dispatch o on_connect c1).1 in
      let c3 = read_loop o s.messages c2 in
      lost-Between s.ending
        (record c3 { is_open = false; backoff = if s.is_stable then second else c3.backoff }) c' r
        (read_loop-Flagged s.messages c2
          (dispatch-Flagged on_connect c1 (ensure_warm-Flagged c0 h)))

  dialed-Between :
      (e : Option Bytes) (c c' : Conn) → dialed o e c ≡ again c' → Between c → Between c'
  unfolding dialed
  dialed-Between (some e) c c' r h = dial_failed-Between e c c' r h
  dialed-Between none c c' r h = connect-Between (o.session c.tick) c c' r h.0

  with_protocol-Between :
      (p : Option Protocol) (c c' : Conn) → with_protocol o p c ≡ again c' → Between c → Between c'
  unfolding with_protocol
  with_protocol-Between none c c' r h = absurd (ground arith)
  with_protocol-Between (some p) c c' r h =
      dialed-Between (o.dial c.tick) (record c { status = connecting; tick = c.tick + 1 }) c' r h

  round-Between : (c c' : Conn) → round o c ≡ again c' → Between c → Between c'
  unfolding round
  round-Between c c' r h =
      let c0 : Conn = record c { tick = c.tick + 1 } in
      with_protocol-Between (new_protocol c.entry.conn_type) c0 c' (ground arith) h

  -- A connection whose script closed it in `onConnect`, `onMessage` or `onClose` has no further round,
  -- unless the script's `onError` returned true at some time.
  pub rounds-StaysOpen :
      (n : ℕ) (e : ConnEntry) (c : Conn) → rounds o n (start e) ≡ again c → Unforced c → StaysOpen c
  rounds-StaysOpen n e c r =
      (rounds-again o Between round-Between n (start e) c r ((λ _. refl), (λ _. refl))).1
