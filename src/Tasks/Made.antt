-- ===== src/Tasks/Made.antt =====
-- The channel of every task exists.
use altclaw.Common.{
  map-append, length-map, ℕ, ◌≤◌, ◌<◌, Bool, true, false, Option, none, some, List, [], ◌∷◌, Bytes,
  ltb, if◌then◌else◌, length, length-append, get_elem?, map, all, all-append, lt_of_get_elem?,
  lookup, bytes_eq, arith, ◌≡◌, refl, ap, sym, ◌∙◌, subst,
}
use altclaw.Tasks.{
  waiting, Channel, Task, Tasks, no_tasks, QueueOpts, limit_of, new_queue, has_limit, queue_found,
  get_queue, spawn, run_task, Event, step,
}
use altclaw.Tasks.Frame.{place, places, Frame, step-elim}

-- The channel of each task was made.
abbrev pub is_made : ℕ → Option Bytes × Option ℕ → Bool
is_made n (_, none) = true
is_made n (_, some j) = ltb j n

pub record IsMade (s : Tasks) : Type 0 where
  pub made : all (is_made (length s.channels)) (places s) ≡ true

pub all-is_made-le :
    (n m : ℕ) (ps : List (Option Bytes × Option ℕ))
    → n ≤ m
    → all (is_made n) ps ≡ true
    → all (is_made m) ps ≡ true
all-is_made-le n m [] le h = refl
all-is_made-le n m ((_, none) ∷ ps) le h = ground (arith, all-is_made-le n m ps le)
all-is_made-le n m ((_, some j) ∷ ps) le h = ground (arith, all-is_made-le n m ps le)

pub spawn-IsMade :
    (name : Option Bytes) (channel : Option ℕ) (s : Tasks)
    → is_made (length s.channels) (name, channel) ≡ true
    → IsMade s
    → IsMade (spawn name channel s)
unfolding spawn
spawn-IsMade name channel s h m = record {
  made = ground (
    arith,
    h,
    m.made,
    map-append place s.tasks new,
    all-append (is_made (length s.channels)) (places s) ((name, channel) ∷ []),
  );
}
  where
    new : Task
    new = record {
      name = name;
      channel = channel;
      phase = waiting;
      is_cancelled = false;
      has_handle = true;
    }

pub record Got (s : Tasks) (r : ℕ × Tasks) : Type 0 where
  pub got : r.0 < length r.1.channels
  pub more : length s.channels ≤ length r.1.channels
  pub same : r.1.tasks ≡ s.tasks

pub new_queue-Got : (name : Bytes) (limit : ℕ) (s : Tasks) → Got s (new_queue name limit s)
unfolding new_queue
new_queue-Got name limit s = record {
  got = omega (arith, length-append s.channels (record { limit = limit; held = 0 } ∷ []));
  more = omega (arith, length-append s.channels (record { limit = limit; held = 0 } ∷ []));
  same = refl;
}

pub get_queue-Got : (name : Bytes) (limit : ℕ) (s : Tasks) → Got s (get_queue name limit s)
unfolding get_queue
get_queue-Got name limit s = by_queue (lookup name s.queues)
  where
    there :
        (j : ℕ) (o : Option Channel)
        → get_elem? s.channels j ≡ o
        → has_limit limit o ≡ true
        → j < length s.channels
    there j none l h = absurd (ground arith)
    there j (some ch) l h = lt_of_get_elem? s.channels j ch l

    by_limit :
        (j : ℕ) (b : Bool)
        → has_limit limit (get_elem? s.channels j) ≡ b
        → Got s (if◌then◌else◌ {A = ℕ × Tasks} b (j, s) (new_queue name limit s))
    by_limit j true h = record {
      got = there j (get_elem? s.channels j) refl h;
      more = omega arith;
      same = refl;
    }
    by_limit j false h = new_queue-Got name limit s

    by_queue : (o : Option ℕ) → Got s (queue_found o name limit s)
    by_queue none = new_queue-Got name limit s
    by_queue (some j) = by_limit j (has_limit limit (get_elem? s.channels j)) refl

pub run_task-IsMade : (opts : Option QueueOpts) (s : Tasks) → IsMade s → IsMade (run_task opts s)
unfolding run_task
run_task-IsMade none s m = spawn-IsMade none none s refl m
run_task-IsMade (some (name, limit)) s m =
    let g : Got s (get_queue name (limit_of limit) s) = get_queue-Got name (limit_of limit) s in
    let (j, s') = get_queue name (limit_of limit) s in
    spawn-IsMade (some name) (some j) s' (ground (arith, g.got)) (record {
      made =
          subst (λ ts. all (is_made (length s'.channels)) (map place ts) ≡ true) (sym g.same)
            (all-is_made-le (length s.channels) (length s'.channels) (places s) g.more m.made);
    })

pub Frame-IsMade : (s s' : Tasks) → Frame s s' → IsMade s → IsMade s'
Frame-IsMade s s' f m = record {
  made =
      subst (λ ps. all (is_made (length s'.channels)) ps ≡ true) (sym f.places_eq)
        (subst (λ n. all (is_made n) (places s) ≡ true) same_length m.made);
}
  where
    same_length : length s.channels ≡ length s'.channels
    same_length =
        sym (length-map (λ ch. ch.limit) s.channels)
        ∙ ap length (sym f.limits_eq)
        ∙ length-map (λ ch. ch.limit) s'.channels

pub step-IsMade : (e : Event) (s s' : Tasks) → step e s ≡ some s' → IsMade s → IsMade s'
step-IsMade e s s' h m =
    step-elim IsMade e s s' (λ opts r. run_task-IsMade opts s m) (λ f. Frame-IsMade s s' f m) h

pub no_tasks-IsMade : IsMade no_tasks
no_tasks-IsMade = record { made = refl }
