-- ===== src/Web/Chats/Sending.antt =====
-- The events that sessions record, and those that the hub gets.
use altclaw.Common.{
  ℕ, zero, suc, ◌+◌, Option, none, some, List, [], ◌∷◌, Bytes, get_elem?, lookup, nat_eq, sum_by,
  sum_by-snoc, arith, ◌≡◌, refl, subst, some-inj,
}
use altclaw.Web.Events.{ChatEvent}
use altclaw.Web.Chats.{
  Session, Chats, make_session, rebuild_agent, begin_run, buffer_event, without, send_found,
  broadcast_event, take_pending, end_run, at, stop_session, stop, inject_session, inject, Event,
  makes, rebuilds, begins, emits, broadcasts, takes, ends, stops, injects, with_session, step,
  and_then, run_all,
}

module _ (weight : ℕ × ChatEvent → ℕ) where
  -- What was recorded is what was broadcast with what waits to be.
  abbrev IsBalanced : Chats → Type 0
  IsBalanced s = sum_by weight s.recorded ≡ sum_by weight s.sent + sum_by weight s.unsent

  sum_by-without :
      (n : ℕ) (es : List (ℕ × ChatEvent)) (e : ℕ × ChatEvent)
      → get_elem? es n ≡ some e
      → sum_by weight (without n es) + weight e ≡ sum_by weight es
  sum_by-without n [] e h = absurd (cc)
  sum_by-without zero (d ∷ es) e h = ground arith
  sum_by-without (suc n) (d ∷ es) e h = omega (arith, sum_by-without n es e h)

  broadcast_event-IsBalanced :
      (n : ℕ) (s s' : Chats) → broadcast_event n s ≡ some s' → IsBalanced s → IsBalanced s'
  unfolding broadcast_event
  broadcast_event-IsBalanced n s s' h b = by_event (get_elem? s.unsent n) refl h
    where
      by_event :
          (o : Option (ℕ × ChatEvent))
          → get_elem? s.unsent n ≡ o
          → send_found n o s ≡ some s'
          → IsBalanced s'
      by_event none g k = absurd (cc)
      by_event (some e) g k =
          subst IsBalanced (some-inj _ s' k)
            (omega (arith, b, sum_by-snoc weight s.sent e, sum_by-without n s.unsent e g))

  buffer_event-IsBalanced :
      (i : ℕ) (e : ChatEvent) (x : Session) (s : Chats)
      → IsBalanced s
      → IsBalanced (buffer_event i e x s)
  unfolding buffer_event
  buffer_event-IsBalanced i e x s b =
      ground (arith, b, sum_by-snoc weight s.recorded (i, e), sum_by-snoc weight s.unsent (i, e))

  begin_run-IsBalanced :
      (i : ℕ) (x : Session) (s : Chats) → IsBalanced s → IsBalanced (begin_run i x s).1
  unfolding begin_run
  begin_run-IsBalanced i x s b = ground (arith, b)

  take_pending-IsBalanced :
      (i : ℕ) (x : Session) (s s' : Chats)
      → take_pending i x s ≡ some s'
      → IsBalanced s
      → IsBalanced s'
  unfolding take_pending
  take_pending-IsBalanced i x s s' h b = ground (arith, b)

  end_run-IsBalanced :
      (i : ℕ) (x : Session) (s s' : Chats) → end_run i x s ≡ some s' → IsBalanced s → IsBalanced s'
  unfolding end_run
  end_run-IsBalanced i x s s' h b = ground (arith, b)

  stop_session-IsBalanced :
      (i : ℕ) (o : Option Session) (s : Chats) → IsBalanced s → IsBalanced (stop_session i o s)
  unfolding stop_session
  stop_session-IsBalanced i none s b = b
  stop_session-IsBalanced i (some x) s b = ground (arith, b)

  stop-IsBalanced : (found : Option ℕ) (s : Chats) → IsBalanced s → IsBalanced (stop found s).1
  unfolding stop
  stop-IsBalanced none s b = b
  stop-IsBalanced (some i) s b = stop_session-IsBalanced i (at i s) s b

  inject_session-IsBalanced :
      (msg : Bytes) (i : ℕ) (o : Option Session) (s : Chats)
      → IsBalanced s
      → IsBalanced (inject_session msg i o s).1
  unfolding inject_session
  inject_session-IsBalanced msg i none s b = b
  inject_session-IsBalanced msg i (some x) s b = ground (arith, b)

  inject-IsBalanced :
      (msg : Bytes) (found : Option ℕ) (s : Chats)
      → IsBalanced s
      → IsBalanced (inject msg found s).1
  unfolding inject
  inject-IsBalanced msg none s b = b
  inject-IsBalanced msg (some i) s b = inject_session-IsBalanced msg i (at i s) s b

  on_found :
      (o : Option Session) (f : Session → Option Chats) (s' : Chats)
      → with_session o f ≡ some s'
      → ((x : Session) → f x ≡ some s' → IsBalanced s')
      → IsBalanced s'
  on_found none f s' h next = absurd (cc)
  on_found (some x) f s' h next = next x h

  step-IsBalanced : (e : Event) (s s' : Chats) → step e s ≡ some s' → IsBalanced s → IsBalanced s'
  unfolding step make_session rebuild_agent
  step-IsBalanced (makes chat) s s' h b = subst IsBalanced (some-inj _ s' h) b
  step-IsBalanced rebuilds s s' h b = subst IsBalanced (some-inj _ s' h) b
  step-IsBalanced (begins i) s s' h b =
      on_found (at i s) _ s' h
        (λ x k. subst IsBalanced (some-inj _ s' k) (begin_run-IsBalanced i x s b))
  step-IsBalanced (emits i e) s s' h b =
      on_found (at i s) _ s' h
        (λ x k. subst IsBalanced (some-inj _ s' k) (buffer_event-IsBalanced i e x s b))
  step-IsBalanced (broadcasts n) s s' h b = broadcast_event-IsBalanced n s s' h b
  step-IsBalanced (takes i) s s' h b =
      on_found (at i s) _ s' h (λ x k. take_pending-IsBalanced i x s s' k b)
  step-IsBalanced (ends i) s s' h b =
      on_found (at i s) _ s' h (λ x k. end_run-IsBalanced i x s s' k b)
  step-IsBalanced (stops chat) s s' h b =
      subst IsBalanced (some-inj _ s' h) (stop-IsBalanced (lookup chat s.chats) s b)
  step-IsBalanced (injects chat msg) s s' h b =
      subst IsBalanced (some-inj _ s' h) (inject-IsBalanced msg (lookup chat s.chats) s b)

  pub run_all-IsBalanced :
      (es : List Event) (s s' : Chats) → run_all es s ≡ some s' → IsBalanced s → IsBalanced s'
  unfolding run_all
  run_all-IsBalanced [] s s' h b = subst IsBalanced (some-inj s s' h) b
  run_all-IsBalanced (e ∷ es) s s' h b = by_step (step e s) refl h (λ u. run_all-IsBalanced es u s')
    where
      by_step :
          (o : Option Chats)
          → step e s ≡ o
          → and_then o (run_all es) ≡ some s'
          → ((u : Chats) → run_all es u ≡ some s' → IsBalanced u → IsBalanced s')
          → IsBalanced s'
      by_step none k q next = absurd (cc)
      by_step (some u) k q next = next u q (step-IsBalanced e s u k b)
