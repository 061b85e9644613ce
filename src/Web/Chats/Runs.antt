-- ===== src/Web/Chats/Runs.antt =====
-- What holds of the sessions of chats at any time.
use altclaw.Common.{
  ℕ, ◌+◌, sum_by, ◌-◌, Bool, true, false, Option, none, some, List, [], ◌∷◌, ◌++◌, ◌&&◌, not, Bytes,
  ltb, if◌then◌else◌, get_elem?, lookup, nat_eq, append_assoc, append-nil, arith, ◌≡◌, inl, inr,
  refl, sym, ap, ◌∙◌, subst, some-inj,
}
use altclaw.Web.Events.{ChatEvent}
use altclaw.Web.Chats.{
  Session, Chats, no_chats, Reply, put, rebuild_agent, begin_run, is_last, buffer_event,
  take_pending, end_run, at, stop_session, stop, inject_session, inject, Event, makes, rebuilds,
  begins, emits, broadcasts, send_found, broadcast_event, takes, ends, stops, injects, with_session,
  step, and_then, run_all, queued, not_running,
}
use altclaw.Web.Chats.Sending.{run_all-IsBalanced}
use altclaw.Web.Chats.Sound.{
  IsSound, AllSound, put-AllSound, make_session-AllSound, begin_run-AllSound, emitted-AllSound,
}

emit-AllSound :
    (i : ℕ) (e : ChatEvent) (x : Session) (s : Chats)
    → at i s ≡ some x
    → AllSound s
    → AllSound (buffer_event i e x s)
unfolding buffer_event
emit-AllSound i e x s g all =
    elim (not x.running && not (is_last e.type))
      as (λ b. AllSound (
        if b
        then s
        else put i (record x { pending_events = x.pending_events ++ e ∷ [] })
            (record s {
              recorded = s.recorded ++ (i, e) ∷ [];
              unsent = s.unsent ++ (i, e) ∷ [];
            }))) [ true ↦ all | false ↦ emitted-AllSound i e x s g all ]

take_pending-AllSound :
    (i : ℕ) (x : Session) (s s' : Chats)
    → at i s ≡ some x
    → take_pending i x s ≡ some s'
    → AllSound s
    → AllSound s'
unfolding take_pending AllSound
take_pending-AllSound i x s s' g k all = by_agents (ltb 0 x.agents) k
  where
    x' : Session
    x' = record x { pending_msgs = []; taken = x.taken ++ x.pending_msgs }

    taken : IsSound i s.recorded x → IsSound i s.recorded x'
    taken (inl a) = inl (record {
      is_running = a.is_running;
      one_agent = a.one_agent;
      messages = append-nil (x.taken ++ x.pending_msgs) ∙ a.messages;
      begun_le = a.begun_le;
      events = a.events;
    })
    taken (inr d) =
        inr (record { not_running = d.not_running; no_agent = d.no_agent; no_messages = refl })

    by_agents : (b : Bool) → (if b then some (put i x' s) else none) ≡ some s' → AllSound s'
    by_agents false m = absurd (cc)
    by_agents true m =
        subst AllSound (some-inj (put i x' s) s' m)
          (put-AllSound i x x' s g (taken (all i x g)) all)

end_run-AllSound :
    (i : ℕ) (x : Session) (s s' : Chats)
    → at i s ≡ some x
    → end_run i x s ≡ some s'
    → AllSound s
    → AllSound s'
unfolding end_run AllSound
end_run-AllSound i x s s' g k all = by_agents (ltb 0 x.agents) k
  where
    x' : Session
    x' = record x {
      running = false;
      has_cancel = false;
      pending_events = [];
      pending_msgs = [];
      agents = x.agents - 1;
    }

    no_agents : IsSound i s.recorded x → x.agents - 1 ≡ 0
    no_agents (inl a) = omega (arith, a.one_agent)
    no_agents (inr d) = omega (arith, d.no_agent)

    by_agents : (b : Bool) → (if b then some (put i x' s) else none) ≡ some s' → AllSound s'
    by_agents false m = absurd (cc)
    by_agents true m = subst AllSound (some-inj (put i x' s) s' m) (
        put-AllSound i x x' s g
          (inr
            (record { not_running = refl; no_agent = no_agents (all i x g); no_messages = refl }))
          all)

cancelled-IsSound :
    (i : ℕ) (recorded : List (ℕ × ChatEvent)) (x : Session)
    → IsSound i recorded x
    → IsSound i recorded (record x { is_cancelled = true })
cancelled-IsSound i recorded x (inl a) = inl (record {
  is_running = a.is_running;
  one_agent = a.one_agent;
  messages = a.messages;
  begun_le = a.begun_le;
  events = a.events;
})
cancelled-IsSound i recorded x (inr d) =
    inr (record { not_running = d.not_running; no_agent = d.no_agent; no_messages = d.no_messages })

stop-AllSound : (found : Option ℕ) (s : Chats) → AllSound s → AllSound (stop found s).1
unfolding stop stop_session AllSound
stop-AllSound none s all = all
stop-AllSound (some i) s all = by_session (at i s) refl
  where
    by_session : (o : Option Session) → at i s ≡ o → AllSound (stop_session i o s)
    by_session none g = all
    by_session (some x) g =
        elim x.has_cancel
          as (λ b. AllSound (if b then put i (record x { is_cancelled = true }) s else s)) [
            | true ↦
                put-AllSound i x (record x { is_cancelled = true }) s g
                  (cancelled-IsSound i s.recorded x (all i x g)) all
            | false ↦ all
          ]

inject-AllSound :
    (msg : Bytes) (found : Option ℕ) (s : Chats) → AllSound s → AllSound (inject msg found s).1
unfolding inject inject_session AllSound
inject-AllSound msg none s all = all
inject-AllSound msg (some i) s all = by_session (at i s) refl
  where
    by_running :
        (x : Session)
        → at i s ≡ some x
        → (b : Bool) → x.running ≡ b
        → AllSound
            (if◌then◌else◌ {A = Reply × Chats} b
              (
                queued,
                put i
                    (record x {
                      pending_msgs = x.pending_msgs ++ msg ∷ [];
                      injected = x.injected ++ msg ∷ [];
                    })
                    s,
              )
              (not_running, s)).1
    by_running x g false r = all
    by_running x g true r = put-AllSound i x _ s g (added (all i x g)) all
      where
        added :
            IsSound i s.recorded x
            → IsSound i s.recorded (record x {
              pending_msgs = x.pending_msgs ++ msg ∷ [];
              injected = x.injected ++ msg ∷ [];
            })
        added (inl a) = inl (record {
          is_running = a.is_running;
          one_agent = a.one_agent;
          messages =
              sym (append_assoc x.taken x.pending_msgs (msg ∷ []))
              ∙ ap (λ ms. ms ++ msg ∷ []) a.messages;
          begun_le = a.begun_le;
          events = a.events;
        })
        added (inr d) = absurd (ground (arith, d.not_running, r))

    by_session : (o : Option Session) → at i s ≡ o → AllSound (inject_session msg i o s).1
    by_session none g = all
    by_session (some x) g = by_running x g x.running refl

-- A step on a session that is there.
on_session :
    (i : ℕ) (s s' : Chats) (f : Session → Option Chats)
    → with_session (at i s) f ≡ some s'
    → ((x : Session) → at i s ≡ some x → f x ≡ some s' → AllSound s')
    → AllSound s'
on_session i s s' f k next = by_session (at i s) refl k
  where
    by_session : (o : Option Session) → at i s ≡ o → with_session o f ≡ some s' → AllSound s'
    by_session none g m = absurd (cc)
    by_session (some x) g m = next x g m

rebuild_agent-AllSound : (s : Chats) → AllSound s → AllSound (rebuild_agent s)
unfolding rebuild_agent AllSound
rebuild_agent-AllSound s all = all

broadcast_event-AllSound :
    (n : ℕ) (s s' : Chats) → broadcast_event n s ≡ some s' → AllSound s → AllSound s'
unfolding broadcast_event AllSound
broadcast_event-AllSound n s s' k all = by_event (get_elem? s.unsent n) k
  where
    by_event : (o : Option (ℕ × ChatEvent)) → send_found n o s ≡ some s' → AllSound s'
    by_event none m = absurd (cc)
    by_event (some e) m = subst AllSound (some-inj _ s' m) all

step-AllSound : (e : Event) (s s' : Chats) → step e s ≡ some s' → AllSound s → AllSound s'
unfolding step rebuild_agent
step-AllSound (makes chat) s s' k all =
    subst AllSound (some-inj _ s' k) (make_session-AllSound chat s all)
step-AllSound rebuilds s s' k all = subst AllSound (some-inj _ s' k) (rebuild_agent-AllSound s all)
step-AllSound (begins i) s s' k all =
    on_session i s s' (λ x. some (begin_run i x s).1) k
      (λ x g m. subst AllSound (some-inj _ s' m) (begin_run-AllSound i x s g all))
step-AllSound (emits i e) s s' k all =
    on_session i s s' (λ x. some (buffer_event i e x s)) k
      (λ x g m. subst AllSound (some-inj _ s' m) (emit-AllSound i e x s g all))
step-AllSound (broadcasts n) s s' k all = broadcast_event-AllSound n s s' k all
step-AllSound (takes i) s s' k all =
    on_session i s s' (λ x. take_pending i x s) k (λ x g m. take_pending-AllSound i x s s' g m all)
step-AllSound (ends i) s s' k all =
    on_session i s s' (λ x. end_run i x s) k (λ x g m. end_run-AllSound i x s s' g m all)
step-AllSound (stops chat) s s' k all =
    subst AllSound (some-inj _ s' k) (stop-AllSound (lookup chat s.chats) s all)
step-AllSound (injects chat msg) s s' k all =
    subst AllSound (some-inj _ s' k) (inject-AllSound msg (lookup chat s.chats) s all)

run_all-AllSound :
    (es : List Event) (s s' : Chats) → run_all es s ≡ some s' → AllSound s → AllSound s'
unfolding run_all
run_all-AllSound [] s s' k all = subst AllSound (some-inj s s' k) all
run_all-AllSound (e ∷ es) s s' k all = by_step (step e s) refl k (λ m. run_all-AllSound es m s')
  where
    by_step :
        (o : Option Chats)
        → step e s ≡ o
        → and_then o (run_all es) ≡ some s'
        → ((m : Chats) → run_all es m ≡ some s' → AllSound m → AllSound s')
        → AllSound s'
    by_step none h q next = absurd (cc)
    by_step (some m) h q next = next m q (step-AllSound e s m h all)

-- After any steps of the handlers and goroutines, each session that was made either runs one agent, or
-- none. While it runs, the messages that were injected in this run are those that the agent took,
-- followed by those that wait, each once and in order; and the buffer holds exactly the events that
-- were recorded for the session since the run began, in order. While it does not run, no message waits.
-- And with any weight of events, the recorded ones weigh as much as those that were broadcast and those
-- that wait to be: none is lost, and none is broadcast twice.
pub run_all-IsSound :
    (es : List Event) (s : Chats) (i : ℕ) (x : Session) (weight : ℕ × ChatEvent → ℕ)
    → run_all es no_chats ≡ some s
    → at i s ≡ some x
    → IsSound i s.recorded x
      × (sum_by weight s.recorded ≡ sum_by weight s.sent + sum_by weight s.unsent)
unfolding AllSound
run_all-IsSound es s i x weight h g = (
  run_all-AllSound es no_chats s h (λ j y k. absurd (cc)) i x g,
  run_all-IsBalanced weight es no_chats s h refl,
)
