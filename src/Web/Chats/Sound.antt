-- ===== src/Web/Chats/Sound.antt =====
-- The invariant of a session, and what it keeps of events and new runs.
use altclaw.Common.{
  ℕ, suc, ◌≤◌, Bool, true, false, some, List, [], ◌∷◌, ◌++◌, ◌==◌, ==_iff, if◌then◌else◌, length,
  get_elem?, get_elem?-set, get_elem?-snoc, drop, drop-snoc, drop-length, length-append, nat_eq,
  arith, ◌≡◌, ◌⊎◌, inl, inr, refl, sym, ap, ◌∙◌, subst, some-inj,
}
use altclaw.Web.Events.{ChatEvent}
use altclaw.Web.Chats.{
  Session, Chats, new_session, Reply, started, already_running, recorded_by, put, make_session,
  begin_run, at,
}

-- A session whose agent runs: what was injected is what the agent took, and then what is pending, and
-- the buffer holds what the session recorded since the run began.
pub record IsActive (i : ℕ) (recorded : List (ℕ × ChatEvent)) (x : Session) : Type 0 where
  pub is_running : x.running ≡ true
  pub one_agent : x.agents ≡ 1
  pub messages : x.taken ++ x.pending_msgs ≡ x.injected
  pub begun_le : x.begun_at ≤ length (recorded_by i recorded)
  pub events : x.pending_events ≡ drop x.begun_at (recorded_by i recorded)

pub record IsIdle (x : Session) : Type 0 where
  pub not_running : x.running ≡ false
  pub no_agent : x.agents ≡ 0
  pub no_messages : x.pending_msgs ≡ []

abbrev pub IsSound : ℕ → List (ℕ × ChatEvent) → Session → Type 0
IsSound i recorded x = IsActive i recorded x ⊎ IsIdle x

unfoldable pub AllSound : Chats → Type 0
AllSound s = (i : ℕ) (x : Session) → at i s ≡ some x → IsSound i s.recorded x

pub recorded_by-snoc :
    (i j : ℕ) (e : ChatEvent) (recorded : List (ℕ × ChatEvent))
    → recorded_by i (recorded ++ (j, e) ∷ [])
      ≡ (if j == i then recorded_by i recorded ++ e ∷ [] else recorded_by i recorded)
unfolding recorded_by
recorded_by-snoc i j e [] = ground arith
recorded_by-snoc i j e ((k, f) ∷ recorded) = ground (arith, recorded_by-snoc i j e recorded)

-- One session replaced, at the same events.
pub put-AllSound :
    (i : ℕ) (x x' : Session) (s : Chats)
    → at i s ≡ some x
    → IsSound i s.recorded x'
    → AllSound s
    → AllSound (put i x' s)
unfolding AllSound
put-AllSound i x x' s g new all j y e =
    by_index (i == j) refl (sym (get_elem?-set s.sessions i j x x' g) ∙ e)
  where
    by_index :
        (b : Bool)
        → (i == j) ≡ b
        → (if b then some x' else get_elem? s.sessions j) ≡ some y
        → IsSound j s.recorded y
    by_index true h k =
        subst (λ n. IsSound n s.recorded y) ((==_iff i j).0 h)
          (subst (IsSound i s.recorded) (some-inj x' y k) new)
    by_index false h k = all j y k

pub make_session-AllSound : (chat : ℕ) (s : Chats) → AllSound s → AllSound (make_session chat s)
unfolding AllSound make_session
make_session-AllSound chat s all j y e =
    by_index (j == length s.sessions) (sym (get_elem?-snoc s.sessions new_session j) ∙ e)
  where
    by_index :
        (b : Bool)
        → (if b then some new_session else get_elem? s.sessions j) ≡ some y
        → IsSound j s.recorded y
    by_index true k =
        subst (IsSound j s.recorded) (some-inj new_session y k)
          (inr (record { not_running = refl; no_agent = refl; no_messages = refl }))
    by_index false k = all j y k

pub begin_run-AllSound :
    (i : ℕ) (x : Session) (s : Chats) → at i s ≡ some x → AllSound s → AllSound (begin_run i x s).1
unfolding AllSound begin_run
begin_run-AllSound i x s g all = by_running x.running refl
  where
    begun : Session
    begun = record x {
      running = true;
      pending_events = [];
      pending_msgs = [];
      has_cancel = true;
      is_cancelled = false;
      agents = suc x.agents;
      injected = [];
      taken = [];
      begun_at = length (recorded_by i s.recorded);
    }

    fresh : x.running ≡ false → IsSound i s.recorded x → IsSound i s.recorded begun
    fresh r (inl a) = absurd (ground (arith, a.is_running, r))
    fresh r (inr d) = inl (record {
      is_running = refl;
      one_agent = ap suc d.no_agent;
      messages = refl;
      begun_le = omega arith;
      events = sym (drop-length (recorded_by i s.recorded));
    })

    by_running :
        (b : Bool)
        → x.running ≡ b
        → AllSound
            (if◌then◌else◌ {A = Reply × Chats} b (already_running, s) (started, put i begun s)).1
    by_running true r = all
    by_running false r = put-AllSound i x begun s g (fresh r (all i x g)) all

pub recorded_by_self :
    (i : ℕ) (e : ChatEvent) (recorded : List (ℕ × ChatEvent))
    → recorded_by i (recorded ++ (i, e) ∷ []) ≡ recorded_by i recorded ++ e ∷ []
recorded_by_self i e recorded = ground (arith, recorded_by-snoc i i e recorded)

pub recorded_by_other :
    (i j : ℕ) (e : ChatEvent) (recorded : List (ℕ × ChatEvent))
    → (i == j) ≡ false
    → recorded_by j (recorded ++ (i, e) ∷ []) ≡ recorded_by j recorded
recorded_by_other i j e recorded h = ground (arith, recorded_by-snoc j i e recorded)

-- The session that records an event, and the others.
pub own-IsSound :
    (i : ℕ) (e : ChatEvent) (recorded : List (ℕ × ChatEvent)) (x : Session)
    → IsSound i recorded x
    → IsSound i (recorded ++ (i, e) ∷ []) (record x { pending_events = x.pending_events ++ e ∷ [] })
own-IsSound i e recorded x (inr d) =
    inr (record { not_running = d.not_running; no_agent = d.no_agent; no_messages = d.no_messages })
own-IsSound i e recorded x (inl a) =
    let more = recorded_by_self i e recorded in
    inl (record {
      is_running = a.is_running;
      one_agent = a.one_agent;
      messages = a.messages;
      begun_le =
          omega
            (arith, a.begun_le, ap length more, length-append (recorded_by i recorded) (e ∷ []));
      events =
          ap (λ es. es ++ e ∷ []) a.events
          ∙ sym (drop-snoc x.begun_at (recorded_by i recorded) e a.begun_le)
          ∙ sym (ap (drop x.begun_at) more);
    })

pub other-IsSound :
    (i j : ℕ) (e : ChatEvent) (recorded : List (ℕ × ChatEvent)) (y : Session)
    → (i == j) ≡ false
    → IsSound j recorded y
    → IsSound j (recorded ++ (i, e) ∷ []) y
other-IsSound i j e recorded y h (inr d) = inr d
other-IsSound i j e recorded y h (inl a) =
    let same = recorded_by_other i j e recorded h in
    inl (record {
      is_running = a.is_running;
      one_agent = a.one_agent;
      messages = a.messages;
      begun_le = omega (arith, a.begun_le, ap length same);
      events = a.events ∙ sym (ap (drop y.begun_at) same);
    })

pub emitted-AllSound :
    (i : ℕ) (e : ChatEvent) (x : Session) (s : Chats)
    → at i s ≡ some x
    → AllSound s
    → AllSound (
        put i
          (record x { pending_events = x.pending_events ++ e ∷ [] })
          (record s { recorded = s.recorded ++ (i, e) ∷ []; unsent = s.unsent ++ (i, e) ∷ [] }))
unfolding AllSound
emitted-AllSound i e x s g all j y k =
    by_index (i == j) refl (sym (get_elem?-set s.sessions i j x x' g) ∙ k)
  where
    x' : Session
    x' = record x { pending_events = x.pending_events ++ e ∷ [] }

    by_index :
        (b : Bool)
        → (i == j) ≡ b
        → (if b then some x' else get_elem? s.sessions j) ≡ some y
        → IsSound j (s.recorded ++ (i, e) ∷ []) y
    by_index true h m =
        subst (λ n. IsSound n (s.recorded ++ (i, e) ∷ []) y) ((==_iff i j).0 h)
          (subst (IsSound i (s.recorded ++ (i, e) ∷ [])) (some-inj x' y m)
            (own-IsSound i e s.recorded x (all i x g)))
    by_index false h m = other-IsSound i j e s.recorded y h (all j y m)
