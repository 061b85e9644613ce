-- ===== src/Web/Events/Delivery.antt =====
-- What each client of the hub gets.
use altclaw.Common.{
  ℕ, ◌≤◌, ◌<◌, Bool, true, false, Option, none, some, List, [], ◌∷◌, ◌++◌, Bytes, ltb, ltb→lt,
  if◌then◌else◌, length, get_elem?, set, drop, map, All, All-append, All-set, All-get_elem?, arith,
  ◌≡◌, ◌⊎◌, refl, subst, some-inj, Bool-cases, inl, inr,
}
use mathlib.Core.List.{Sublistᴰ}
use altclaw.Web.Events.{
  ChatEvent, Json, Subscriber, Hub, new_hub, channel_size, frame, connected, subscribe, offer,
  broadcast_raw, broadcast_slow, broadcast_fast, broadcast, unsubscribe, written_from, write,
  HubEvent, subscribes, unsubscribes, broadcasts, broadcasts_raw, writes, write_open, close,
  is_frequent, fast_data, hub_step, and_then, run_hub,
}
use altclaw.Web.Events.Client.{
  IsDelivered, new-IsDelivered, offer-IsDelivered, closed-IsDelivered, written-IsDelivered,
}

module _ (j : Json) where
  AllDelivered : Hub → Type 0
  AllDelivered h = All (IsDelivered j h.log) h.subscribers

  offered-AllDelivered :
      (log : List Bytes) (p : Bytes) (ss : List Subscriber)
      → All (IsDelivered j log) ss
      → All (IsDelivered j (log ++ p ∷ [])) (map (offer (frame p)) ss)
  offered-AllDelivered log p [] d = tt
  offered-AllDelivered log p (s ∷ ss) d =
      (offer-IsDelivered j log p s d.0, offered-AllDelivered log p ss d.1)

  broadcast_slow-AllDelivered :
      (o : Option Bytes) (h : Hub) → AllDelivered h → AllDelivered (broadcast_slow o h)
  unfolding AllDelivered broadcast_slow broadcast_raw
  broadcast_slow-AllDelivered none h d = d
  broadcast_slow-AllDelivered (some p) h d = offered-AllDelivered h.log p h.subscribers d

  broadcast-AllDelivered :
      (e : ChatEvent) (h : Hub) → AllDelivered h → AllDelivered (broadcast j e h)
  unfolding AllDelivered broadcast broadcast_fast broadcast_raw
  broadcast-AllDelivered e h d = by_type (is_frequent e.type) (j.marshal_text e.content)
    where
      slow : AllDelivered (broadcast_slow (j.marshal_event e) h)
      slow = broadcast_slow-AllDelivered (j.marshal_event e) h d

      by_type :
          (b : Bool) (content : Option Bytes)
          → AllDelivered
              (if b then broadcast_fast j content e h else broadcast_slow (j.marshal_event e) h)
      by_type false content = slow
      by_type true none = slow
      by_type true (some c) = offered-AllDelivered h.log (fast_data j e c) h.subscribers d

  unsubscribe-AllDelivered :
      (i : ℕ) (h h' : Hub) → unsubscribe i h ≡ some h' → AllDelivered h → AllDelivered h'
  unfolding AllDelivered unsubscribe
  unsubscribe-AllDelivered i h h' e d = by_found (get_elem? h.subscribers i) refl e
    where
      by_found :
          (found : Option Subscriber)
          → get_elem? h.subscribers i ≡ found
          → close found i h ≡ some h'
          → AllDelivered h'
      by_found none g k = absurd (cc)
      by_found (some s) g k = by_open s.is_open k
        where
          closed : Hub
          closed = record h { subscribers = set h.subscribers i (record s { is_open = false }) }

          by_open : (b : Bool) → (if b then some closed else none) ≡ some h' → AllDelivered h'
          by_open false m = absurd (cc)
          by_open true m = subst AllDelivered (some-inj closed h' m) (
              All-set (IsDelivered j h.log) h.subscribers i (record s { is_open = false }) d
                (closed-IsDelivered j h.log s
                  (All-get_elem? (IsDelivered j h.log) h.subscribers i s d g)))

  write-AllDelivered : (i : ℕ) (h h' : Hub) → write i h ≡ some h' → AllDelivered h → AllDelivered h'
  unfolding AllDelivered write
  write-AllDelivered i h h' e d = by_found (get_elem? h.subscribers i) refl e
    where
      by_channel :
          (s : Subscriber)
          → get_elem? h.subscribers i ≡ some s
          → (c : List Bytes) → s.channel ≡ c
          → written_from c s i h ≡ some h'
          → AllDelivered h'
      by_channel s g [] q k = absurd (cc)
      by_channel s g (line ∷ lines) q k = subst AllDelivered (some-inj _ h' k) (
          All-set (IsDelivered j h.log) h.subscribers i _ d (
            written-IsDelivered j h.log s line lines q
              (All-get_elem? (IsDelivered j h.log) h.subscribers i s d g)))

      by_found :
          (found : Option Subscriber)
          → get_elem? h.subscribers i ≡ found
          → write_open found i h ≡ some h'
          → AllDelivered h'
      by_found none g k = absurd (cc)
      by_found (some s) g k =
          elim s.is_open
              as (λ b.
                (if b then written_from s.channel s i h else none) ≡ some h' → AllDelivered h') [
                  | true ↦ λ m. by_channel s g s.channel refl m
                  | false ↦ λ m. absurd (cc)
                ]
            k

  hub_step-AllDelivered :
      (e : HubEvent) (h h' : Hub) → hub_step j e h ≡ some h' → AllDelivered h → AllDelivered h'
  unfolding hub_step AllDelivered subscribe broadcast_raw
  hub_step-AllDelivered subscribes h h' k d =
      subst AllDelivered (some-inj _ h' k)
        (All-append (IsDelivered j h.log) h.subscribers _ d (new-IsDelivered j h.log, tt))
  hub_step-AllDelivered (unsubscribes i) h h' k d = unsubscribe-AllDelivered i h h' k d
  hub_step-AllDelivered (broadcasts e) h h' k d =
      subst AllDelivered (some-inj _ h' k) (broadcast-AllDelivered e h d)
  hub_step-AllDelivered (broadcasts_raw p) h h' k d =
      subst AllDelivered (some-inj _ h' k) (offered-AllDelivered h.log p h.subscribers d)
  hub_step-AllDelivered (writes i) h h' k d = write-AllDelivered i h h' k d

  run_hub-AllDelivered :
      (es : List HubEvent) (h h' : Hub)
      → run_hub j es h ≡ some h'
      → AllDelivered h
      → AllDelivered h'
  unfolding run_hub
  run_hub-AllDelivered [] h h' k d = subst AllDelivered (some-inj h h' k) d
  run_hub-AllDelivered (e ∷ es) h h' k d =
      by_step (hub_step j e h) refl k (λ m. run_hub-AllDelivered es m h')
    where
      by_step :
          (o : Option Hub)
          → hub_step j e h ≡ o
          → and_then o (run_hub j es) ≡ some h'
          → ((m : Hub) → run_hub j es m ≡ some h' → AllDelivered m → AllDelivered h')
          → AllDelivered h'
      by_step none s q next = absurd (cc)
      by_step (some m) s q next = next m q (hub_step-AllDelivered e h m s d)

  -- What the handler of a client has written or will write is the frames of the connection, of the
  -- status of the tunnel, and of some of the broadcasts since it subscribed, in order: of all, unless it
  -- has left or there were more than 1024.
  abbrev pub Gets : List Bytes → Subscriber → Type 0
  Gets log s =
      (got : List Bytes) × (s.written ++ s.channel
        ≡ map frame (connected ∷ (j.marshal_status s.since ∷ got)))
      × Sublistᴰ got (drop s.since log)
      × (length s.channel ≤ channel_size)
      × ((s.is_open ≡ false)
          ⊎ ((channel_size < length (drop s.since log)) ⊎ (got ≡ drop s.since log)))

  IsDelivered-Gets : (log : List Bytes) (s : Subscriber) → IsDelivered j log s → Gets log s
  IsDelivered-Gets log s d = (
    d.got,
    d.frames,
    d.in_order,
    d.bounded,
    by_tests (Bool-cases s.is_open) (Bool-cases (ltb channel_size (length (drop s.since log)))),
  )
    where
      by_tests :
          (s.is_open ≡ true) ⊎ (s.is_open ≡ false)
          → (ltb channel_size (length (drop s.since log)) ≡ true)
            ⊎ (ltb channel_size (length (drop s.since log)) ≡ false)
          → (s.is_open ≡ false)
            ⊎ ((channel_size < length (drop s.since log)) ⊎ (d.got ≡ drop s.since log))
      by_tests (inr c) t = inl c
      by_tests (inl o) (inl more) = inr (inl (ltb→lt _ _ more))
      by_tests (inl o) (inr few) = inr (inr (d.complete o (ground arith)))

  -- After any steps of a new hub, its callers and the handlers of its clients, what was written for a
  -- client and what waits in its channel are the frames of the connection, of the tunnel's status,
  -- and of some of the broadcasts since it subscribed, in their order. At most 1024 wait. None of the
  -- broadcasts is missing, unless the client has left or there were more than 1024 of them.
  pub run_hub-Gets :
      (es : List HubEvent) (h : Hub) (i : ℕ) (s : Subscriber)
      → run_hub j es new_hub ≡ some h
      → get_elem? h.subscribers i ≡ some s
      → Gets h.log s
  unfolding AllDelivered
  run_hub-Gets es h i s e g = IsDelivered-Gets h.log s (
      All-get_elem? (IsDelivered j h.log) h.subscribers i s (run_hub-AllDelivered es new_hub h e tt)
        g)
