-- ===== src/Tasks/Kept.antt =====
-- The channel of a queue stays the same while the limits that are asked for agree.
use altclaw.Common.{
  map-append, length-map, ℕ, Bool, true, false, Option, none, some, List, [], ◌∷◌, ◌++◌, ◌||◌, not,
  Bytes, ◌==◌, if◌then◌else◌, length, get_elem?, map, all, lookup, insert, lookup-insert, bytes_eq,
  text_eq, text_eq_iff, arith, ◌≡◌, refl, ap, sym, ◌∙◌, subst,
}
use altclaw.Tasks.{
  Channel, Tasks, no_tasks, QueueOpts, limit_of, new_queue, has_limit, queue_found, get_queue,
  run_task, Event, runs, step, run_all,
}
use altclaw.Tasks.Lift.{run_all-lift_if}
use altclaw.Tasks.Frame.{places, limits, Frame, step-elim}
use altclaw.Tasks.Placed.{
  agrees, is_placed, at_limit, IsKept, has_limit-has_value, spawn-IsKept, all-is_placed-none,
  has_value-last, at_limit-snoc,
}

module _ (q : Bytes) (n : ℕ) where
  IsKept-at :
      (o : Option ℕ) (s : Tasks)
      → lookup q s.queues ≡ o
      → all (is_placed q o) (places s) ≡ true
      → at_limit n o (limits s) ≡ true
      → IsKept q n s
  IsKept-at o s l p a = record {
    placed = subst (λ c. all (is_placed q c) (places s) ≡ true) (sym l) p;
    limit = subst (λ c. at_limit n c (limits s) ≡ true) (sym l) a;
  }

  limits_snoc :
      (chs : List Channel) (ch : Channel)
      → map (λ c. c.limit) chs ++ ch.limit ∷ [] ≡ map (λ c. c.limit) (chs ++ ch ∷ [])
  limits_snoc chs ch = sym (map-append (λ c. c.limit) chs ch)

  -- A new channel for another queue.
  new_queue-IsKept_other :
      (name : Bytes) (limit : ℕ) (s : Tasks)
      → text_eq name q ≡ false
      → IsKept q n s
      → IsKept q n (new_queue name limit s).1
  unfolding new_queue
  new_queue-IsKept_other name limit s d k =
      IsKept-at (lookup q s.queues) (new_queue name limit s).1
        (ground (arith, lookup-insert name q (length s.channels) s.queues)) k.placed
        (subst (λ ls. at_limit n (lookup q s.queues) ls ≡ true)
          (limits_snoc s.channels (record { limit = limit; held = 0 }))
          (at_limit-snoc n limit (lookup q s.queues) (limits s) k.limit))

  new_queue-IsKept_same :
      (name : Bytes) (s : Tasks)
      → name ≡ q
      → lookup q s.queues ≡ none
      → IsKept q n s
      → IsKept q n (new_queue name n s).1
  unfolding new_queue
  new_queue-IsKept_same name s e l k =
      IsKept-at (some (length s.channels)) (new_queue name n s).1
        (ground (arith, lookup-insert name q (length s.channels) s.queues, bytes_eq.beq_iff name q))
        (all-is_placed-none q (length s.channels) (places s)
          (subst (λ c. all (is_placed q c) (places s) ≡ true) l k.placed))
        (subst (λ ls. at_limit n (some (length s.channels)) ls ≡ true)
          (limits_snoc s.channels (record { limit = n; held = 0 }))
          (has_value-last n (limits s) (length s.channels) (length-map (λ c. c.limit) s.channels)))

  -- The channel that the call gets is the queue's.
  get_queue-IsKept :
      (name : Bytes) (limit : ℕ) (s : Tasks)
      → (if text_eq name q then limit == n else true) ≡ true
      → IsKept q n s
      → IsKept q n (get_queue name limit s).1
  unfolding get_queue
  get_queue-IsKept name limit s h k = by_name (text_eq name q) refl
    where
      by_limit :
          (same b : Bool) (j : ℕ)
          → text_eq name q ≡ same
          → lookup name s.queues ≡ some j
          → has_limit limit (get_elem? s.channels j) ≡ b
          → IsKept q n (if◌then◌else◌ {A = ℕ × Tasks} b (j, s) (new_queue name limit s)).1
      by_limit same true j e l b = k
      by_limit false false j e l b = new_queue-IsKept_other name limit s e k
      by_limit true false j e l b =
          absurd (ground (arith, text_eq_iff name q, k.limit, has_limit-has_value n s.channels j))

      by_queue :
          (o : Option ℕ) (same : Bool)
          → lookup name s.queues ≡ o
          → text_eq name q ≡ same
          → IsKept q n (queue_found o name limit s).1
      by_queue none false l e = new_queue-IsKept_other name limit s e k
      by_queue none true l e =
          let named : name ≡ q = (text_eq_iff name q).0 e in
          subst (λ m. IsKept q n (new_queue name m s).1) (ground (arith, e))
            (new_queue-IsKept_same name s named (subst (λ x. lookup x s.queues ≡ none) named l) k)
      by_queue (some j) same l e =
          by_limit same (has_limit limit (get_elem? s.channels j)) j e l refl

      by_name :
          (same : Bool)
          → text_eq name q ≡ same
          → IsKept q n (queue_found (lookup name s.queues) name limit s).1
      by_name same e = by_queue (lookup name s.queues) same refl e

get_queue-lookup :
    (name : Bytes) (limit : ℕ) (s : Tasks)
    → lookup name (get_queue name limit s).1.queues ≡ some (get_queue name limit s).0
unfolding get_queue new_queue
get_queue-lookup name limit s = by_queue (lookup name s.queues) refl
  where
    new : lookup name (insert name (length s.channels) s.queues) ≡ some (length s.channels)
    new =
        ground
          (arith, lookup-insert name name (length s.channels) s.queues, bytes_eq.beq_iff name name)

    by_queue :
        (o : Option ℕ)
        → lookup name s.queues ≡ o
        → lookup name (queue_found o name limit s).1.queues ≡ some (queue_found o name limit s).0
    by_queue none l = new
    by_queue (some j) l =
        elim (has_limit limit (get_elem? s.channels j))
          as (λ b.
            lookup name (if◌then◌else◌ {A = ℕ × Tasks} b (j, s) (new_queue name limit s)).1.queues
            ≡ some (if◌then◌else◌ {A = ℕ × Tasks} b (j, s) (new_queue name limit s)).0) [
              | true ↦ l
              | false ↦ new
            ]

module _ (q : Bytes) (n : ℕ) where
  run_task-IsKept :
      (opts : Option QueueOpts) (s : Tasks)
      → agrees q n (runs opts) ≡ true
      → IsKept q n s
      → IsKept q n (run_task opts s)
  unfolding run_task
  run_task-IsKept none s h k =
      spawn-IsKept q n none none s
        (elim (lookup q s.queues) as (λ o. is_placed q o (none, none) ≡ true) [
          | none ↦ refl
          | some _ ↦ refl
        ])
        k
  run_task-IsKept (some (name, limit)) s h k =
      let (j, s') = get_queue name (limit_of limit) s in
      spawn-IsKept q n (some name) (some j) s'
        (here (text_eq name q) (lookup q s'.queues) refl refl)
        (get_queue-IsKept q n name (limit_of limit) s h k)
    where
      here :
          (b : Bool) (o : Option ℕ)
          → text_eq name q ≡ b
          → lookup q (get_queue name (limit_of limit) s).1.queues ≡ o
          → is_placed q o (some name, some (get_queue name (limit_of limit) s).0) ≡ true
      here false none e l = ground (arith, e)
      here false (some i) e l = ground (arith, e)
      here true o e l =
          let found : lookup q (get_queue name (limit_of limit) s).1.queues
              ≡ some (get_queue name (limit_of limit) s).0 =
            subst
              (λ x.
                lookup x (get_queue name (limit_of limit) s).1.queues
                ≡ some (get_queue name (limit_of limit) s).0)
              ((text_eq_iff name q).0 e) (get_queue-lookup name (limit_of limit) s) in
          subst (λ c. is_placed q c (some name, some (get_queue name (limit_of limit) s).0) ≡ true)
            (sym found ∙ l) (own (text_eq name q) (get_queue name (limit_of limit) s).0)
        where
          own : (b : Bool) (j : ℕ) → (not b || (j == j)) ≡ true
          own b j = ground arith

  Frame-IsKept : (s s' : Tasks) → Frame s s' → IsKept q n s → IsKept q n s'
  Frame-IsKept s s' f k =
      IsKept-at q n (lookup q s.queues) s' (ap (lookup q) f.queues)
        (subst (λ ps. all (is_placed q (lookup q s.queues)) ps ≡ true) (sym f.places_eq) k.placed)
        (subst (λ ls. at_limit n (lookup q s.queues) ls ≡ true) (sym f.limits_eq) k.limit)

  step-IsKept :
      (e : Event) (s s' : Tasks)
      → agrees q n e ≡ true
      → step e s ≡ some s'
      → IsKept q n s
      → IsKept q n s'
  step-IsKept e s s' a h k =
      step-elim (IsKept q n) e s s'
        (λ opts r. run_task-IsKept opts s (subst (λ x. agrees q n x ≡ true) r a) k)
        (λ f. Frame-IsKept s s' f k) h

  no_tasks-IsKept : IsKept q n no_tasks
  unfolding lookup
  no_tasks-IsKept = record { placed = refl; limit = refl }

  pub run_all-IsKept :
      (es : List Event) (s : Tasks)
      → all (agrees q n) es ≡ true
      → run_all es no_tasks ≡ some s
      → IsKept q n s
  run_all-IsKept es s a h =
      run_all-lift_if (IsKept q n) (agrees q n) step-IsKept es no_tasks s a h no_tasks-IsKept
