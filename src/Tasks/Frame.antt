-- ===== src/Tasks/Frame.antt =====
-- What no step but `task.run` changes: the queues and their limits, and where each task runs.
use altclaw.Common.{
  ℕ, zero, suc, ◌+◌, ◌-◌, Bool, true, false, Option, none, some, List, [], ◌∷◌, Bytes, codes,
  if◌then◌else◌, get_elem?, set, map, arith, ◌≡◌, refl, ap, ap₂, sym, ◌∙◌, subst, some-inj,
}
use altclaw.Tasks.Lift.{with_task-lift}
use altclaw.Tasks.{
  QueueOpts, run_task, Outcome, failed, Phase, waiting, running, settled, Channel, Task, Tasks,
  move, move_some, set_held, take_slot, free_slot, acquire, release, start_phase, abort_phase,
  finish_phase, start, abort, finish, Answer, unknown_handle, undefined, undefined, done_phase,
  done_task, done, cancel_task, cancel, Event, runs, starts, aborts, finishes, polls, cancels,
  stops, step,
}

map-set_same {ℓ κ} :
    {A : Type ℓ} {B : Type κ} (f : A → B) (xs : List A) (i : ℕ) (u v : A)
    → get_elem? xs i ≡ some u
    → f v ≡ f u
    → map f (set xs i v) ≡ map f xs
map-set_same f [] i u v g e = refl
map-set_same f (x ∷ xs) zero u v g e = ap (λ y. y ∷ map f xs) (e ∙ ap f (sym (some-inj x u g)))
map-set_same f (x ∷ xs) (suc i) u v g e = ap (λ ys. f x ∷ ys) (map-set_same f xs i u v g e)

abbrev pub places : Tasks → List (Option Bytes × Option ℕ)
places s = map (λ t. (t.name, t.channel)) s.tasks

abbrev pub limits : Tasks → List ℕ
limits s = map (λ ch. ch.limit) s.channels

pub record Frame (s s' : Tasks) : Type 0 where
  pub queues : s'.queues ≡ s.queues
  pub places_eq : places s' ≡ places s
  pub limits_eq : limits s' ≡ limits s

abbrev pub place : Task → Option Bytes × Option ℕ
place t = (t.name, t.channel)

module _ (i : ℕ) (t : Task) (s s' : Tasks) (there : get_elem? s.tasks i ≡ some t) where
  task-Frame :
      (u : Task)
      → u.name ≡ t.name
      → u.channel ≡ t.channel
      → Frame s (record s { tasks = set s.tasks i u })
  task-Frame u n c = record {
    queues = refl;
    places_eq = map-set_same place s.tasks i t u there (ap₂ (λ x y. (x, y)) n c);
    limits_eq = refl;
  }

  slot-Frame :
      (k n : ℕ) (ch : Channel) (p : Phase)
      → get_elem? s.channels k ≡ some ch
      → Frame s (move i t p (set_held k ch n s))
  slot-Frame k n ch p l = record {
    queues = refl;
    places_eq = map-set_same place s.tasks i t (record t { phase = p }) there refl;
    limits_eq = map-set_same (λ c. c.limit) s.channels k ch (record ch { held = n }) l refl;
  }

  acquire-Frame : (c : Option ℕ) → move_some i t running (acquire c s) ≡ some s' → Frame s s'
  unfolding acquire take_slot
  acquire-Frame none e =
      subst (Frame s) (some-inj _ s' e) (task-Frame (record t { phase = running }) refl refl)
  acquire-Frame (some k) e = by_channel (get_elem? s.channels k) refl e
    where
      by_channel :
          (f : Option Channel)
          → get_elem? s.channels k ≡ f
          → move_some i t running (take_slot f k s) ≡ some s'
          → Frame s s'
      by_channel none l h = absurd (ground arith)
      by_channel (some ch) l h =
          subst (Frame s) (ground arith) (slot-Frame k (ch.held + 1) ch running l)

  release-Frame : (c : Option ℕ) (r : Outcome) → Frame s (move i t (settled r) (release c s))
  unfolding release free_slot
  release-Frame none r = task-Frame (record t { phase = settled r }) refl refl
  release-Frame (some k) r = by_channel (get_elem? s.channels k) refl
    where
      by_channel :
          (f : Option Channel)
          → get_elem? s.channels k ≡ f
          → Frame s (move i t (settled r) (free_slot f k s))
      by_channel none l = task-Frame (record t { phase = settled r }) refl refl
      by_channel (some ch) l = slot-Frame k (ch.held - 1) ch (settled r) l

  start_phase-Frame : (p : Phase) → start_phase p i t s ≡ some s' → Frame s s'
  unfolding start_phase
  start_phase-Frame waiting e = acquire-Frame t.channel e
  start_phase-Frame running e = absurd (ground arith)
  start_phase-Frame (settled r) e = absurd (ground arith)

  abort_phase-Frame : (p : Phase) (c : Option ℕ) → abort_phase p c i t s ≡ some s' → Frame s s'
  unfolding abort_phase
  abort_phase-Frame waiting (some k) e =
      subst (Frame s) (ground arith)
        (task-Frame (record t { phase = settled (failed (codes "context canceled")) }) refl refl)
  abort_phase-Frame waiting none e = absurd (ground arith)
  abort_phase-Frame running c e = absurd (ground arith)
  abort_phase-Frame (settled r) c e = absurd (ground arith)

  finish_phase-Frame : (p : Phase) (r : Outcome) → finish_phase p r i t s ≡ some s' → Frame s s'
  unfolding finish_phase
  finish_phase-Frame waiting r e = absurd (ground arith)
  finish_phase-Frame running r e = subst (Frame s) (some-inj _ s' e) (release-Frame t.channel r)
  finish_phase-Frame (settled _) r e = absurd (ground arith)

Frame-refl : (s : Tasks) → Frame s s
Frame-refl s = record { queues = refl; places_eq = refl; limits_eq = refl }

done-Frame : (i : ℕ) (s : Tasks) → Frame s (done i s).1
unfolding done done_task done_phase
done-Frame i s = by_task (get_elem? s.tasks i) refl
  where
    by_phase :
        (t : Task) (p : Phase) → get_elem? s.tasks i ≡ some t → Frame s (done_phase p i t s).1
    by_phase t waiting l = Frame-refl s
    by_phase t running l = Frame-refl s
    by_phase t (settled r) l = task-Frame i t s s l (record t { has_handle = false }) refl refl

    by_task : (o : Option Task) → get_elem? s.tasks i ≡ o → Frame s (done_task o i s).1
    by_task none l = Frame-refl s
    by_task (some t) l =
        elim t.has_handle
          as (λ h.
            Frame s
              (if◌then◌else◌ {A = Answer × Tasks} h (done_phase t.phase i t s)
                (unknown_handle i, s)).1) [ true ↦ by_phase t t.phase l | false ↦ Frame-refl s ]

cancel-Frame : (i : ℕ) (s : Tasks) → Frame s (cancel i s).1
unfolding cancel cancel_task
cancel-Frame i s = by_task (get_elem? s.tasks i) refl
  where
    by_task : (o : Option Task) → get_elem? s.tasks i ≡ o → Frame s (cancel_task o i s).1
    by_task none l = Frame-refl s
    by_task (some t) l =
        elim t.has_handle
          as (λ h.
            Frame s
              (if◌then◌else◌ {A = Answer × Tasks} h
                (undefined, record s { tasks = set s.tasks i (record t { is_cancelled = true }) })
                (unknown_handle i, s)).1) [
                  | true ↦ task-Frame i t s s l (record t { is_cancelled = true }) refl refl
                  | false ↦ Frame-refl s
                ]

-- Every step but a new task.
abbrev pub is_run : Event → Bool
is_run (runs _) = true
is_run _ = false

pub step-Frame : (e : Event) (s s' : Tasks) → is_run e ≡ false → step e s ≡ some s' → Frame s s'
unfolding step start abort finish
step-Frame (runs opts) s s' n h = absurd (ground arith)
step-Frame (starts i) s s' n h =
    with_task-lift (Frame s) (λ t. start_phase t.phase i t s) i s s'
      (λ t g. start_phase-Frame i t s s' g t.phase) h
step-Frame (aborts i) s s' n h =
    with_task-lift (Frame s) (λ t. abort_phase t.phase t.channel i t s) i s s'
      (λ t g. abort_phase-Frame i t s s' g t.phase t.channel) h
step-Frame (finishes i r) s s' n h =
    with_task-lift (Frame s) (λ t. finish_phase t.phase r i t s) i s s'
      (λ t g. finish_phase-Frame i t s s' g t.phase r) h
step-Frame (polls i) s s' n h = subst (Frame s) (some-inj _ s' h) (done-Frame i s)
step-Frame (cancels i) s s' n h = subst (Frame s) (some-inj _ s' h) (cancel-Frame i s)
step-Frame stops s s' n h =
    subst (Frame s) (some-inj _ s' h) (record { queues = refl; places_eq = refl; limits_eq = refl })

-- What `task.run` establishes and the frame keeps holds after every step.
pub step-elim {ℓ} :
    (P : Tasks → Type ℓ) (e : Event) (s s' : Tasks)
    → ((opts : Option QueueOpts) → e ≡ runs opts → P (run_task opts s))
    → (Frame s s' → P s')
    → step e s ≡ some s'
    → P s'
unfolding step
step-elim P (runs opts) s s' r f h = subst P (some-inj _ s' h) (r opts refl)
step-elim P (starts i) s s' r f h = f (step-Frame (starts i) s s' refl h)
step-elim P (aborts i) s s' r f h = f (step-Frame (aborts i) s s' refl h)
step-elim P (finishes i o) s s' r f h = f (step-Frame (finishes i o) s s' refl h)
step-elim P (polls i) s s' r f h = f (step-Frame (polls i) s s' refl h)
step-elim P (cancels i) s s' r f h = f (step-Frame (cancels i) s s' refl h)
step-elim P stops s s' r f h = f (step-Frame stops s s' refl h)
