-- ===== src/Tasks/Slots.antt =====
-- The slots of the channels while tasks are made, and while one of them changes.
use altclaw.Common.{
  ℕ, ◌+◌, ◌≤◌, Bool, true, false, Option, none, some, List, [], ◌∷◌, ◌&&◌, Bytes, ◌==◌,
  if◌then◌else◌, length, get_elem?, set, All, All-append, get_elem?-set, get_elem?-snoc, sum_by,
  sum_by-set, sum_by-snoc, All-set, All-get_elem?, lookup, bytes_eq, arith, ◌≡◌, refl,
}
use altclaw.Tasks.{
  Phase, waiting, running, Channel, Task, Tasks, no_tasks, QueueOpts, limit_of, new_queue,
  has_limit, queue_found, get_queue, spawn, run_task,
}

abbrev pub is_on : Option ℕ → ℕ → Bool
is_on none j = false
is_on (some k) j = k == j

abbrev pub is_running : Phase → Bool
is_running running = true
is_running _ = false

-- 1 for a task that runs with a slot of the channel.
abbrev pub uses_slot : ℕ → Task → ℕ
uses_slot j t = if is_running t.phase && is_on t.channel j then 1 else 0

abbrev pub running_on : ℕ → List Task → ℕ
running_on j ts = sum_by (uses_slot j) ts

abbrev pub held_of : Option Channel → ℕ
held_of none = 0
held_of (some ch) = ch.held

abbrev pub IsSound : Channel → Type 0
IsSound ch = (ch.held ≤ ch.limit) × (1 ≤ ch.limit)

pub record IsBalanced (s : Tasks) : Type 0 where
  pub balanced : (j : ℕ) → running_on j s.tasks ≡ held_of (get_elem? s.channels j)
  pub sound : All IsSound s.channels

pub no_tasks-IsBalanced : IsBalanced no_tasks
no_tasks-IsBalanced = record { balanced = λ j. refl; sound = tt }

pub limit_of_pos : (n : Option ℕ) → 1 ≤ limit_of n
limit_of_pos none = omega arith
limit_of_pos (some n) = ground arith

pub new_queue-IsBalanced :
    (name : Bytes) (limit : ℕ) (s : Tasks)
    → 1 ≤ limit
    → IsBalanced s
    → IsBalanced (new_queue name limit s).1
unfolding new_queue
new_queue-IsBalanced name limit s h b = record {
  balanced = λ j. ground (
    arith,
    b.balanced j,
    get_elem?-snoc s.channels (record { limit = limit; held = 0 }) j,
    out_of_range s.channels,
  );
  sound =
      All-append IsSound s.channels (record { limit = limit; held = 0 } ∷ []) b.sound
        ((omega arith, h), tt);
}
  where
    out_of_range : (chs : List Channel) → held_of (get_elem? chs (length chs)) ≡ 0
    out_of_range [] = refl
    out_of_range (ch ∷ chs) = out_of_range chs

pub get_queue-IsBalanced :
    (name : Bytes) (limit : ℕ) (s : Tasks)
    → 1 ≤ limit
    → IsBalanced s
    → IsBalanced (get_queue name limit s).1
unfolding get_queue
get_queue-IsBalanced name limit s h b = by_queue (lookup name s.queues)
  where
    by_queue : (f : Option ℕ) → IsBalanced (queue_found f name limit s).1
    by_queue none = new_queue-IsBalanced name limit s h b
    by_queue (some j) = by_limit (has_limit limit (get_elem? s.channels j))
      where
        by_limit :
            (same : Bool)
            → IsBalanced (if◌then◌else◌ {A = ℕ × Tasks} same (j, s) (new_queue name limit s)).1
        by_limit true = b
        by_limit false = new_queue-IsBalanced name limit s h b

pub spawn-IsBalanced :
    (name : Option Bytes) (channel : Option ℕ) (s : Tasks)
    → IsBalanced s
    → IsBalanced (spawn name channel s)
unfolding spawn
spawn-IsBalanced name channel s b = record {
  balanced = λ j. omega (arith, b.balanced j, sum_by-snoc (uses_slot j) s.tasks new);
  sound = b.sound;
}
  where
    new : Task
    new = record {
      name = name;
      channel = channel;
      phase = waiting;
      is_cancelled = false;
      has_handle = true;
    }

pub run_task-IsBalanced :
    (opts : Option QueueOpts) (s : Tasks) → IsBalanced s → IsBalanced (run_task opts s)
unfolding run_task
run_task-IsBalanced none s b = spawn-IsBalanced none none s b
run_task-IsBalanced (some (name, limit)) s b =
    let (j, s') = get_queue name (limit_of limit) s in
    spawn-IsBalanced (some name) (some j) s'
      (get_queue-IsBalanced name (limit_of limit) s (limit_of_pos limit) b)

-- A change of a task that neither starts nor ends its run.
pub same_slot-IsBalanced :
    (i : ℕ) (t u : Task) (s : Tasks)
    → get_elem? s.tasks i ≡ some t
    → ((j : ℕ) → uses_slot j u ≡ uses_slot j t)
    → IsBalanced s
    → IsBalanced (record s { tasks = set s.tasks i u })
same_slot-IsBalanced i t u s g e b = record {
  balanced = λ j. omega (arith, b.balanced j, sum_by-set (uses_slot j) s.tasks i t u g, e j);
  sound = b.sound;
}

-- A change of a task together with the slots of a channel.
pub slot-IsBalanced :
    (i k n : ℕ) (t u : Task) (ch : Channel) (s : Tasks)
    → get_elem? s.tasks i ≡ some t
    → get_elem? s.channels k ≡ some ch
    → ((j : ℕ)
        → uses_slot j u + (if k == j then ch.held else 0)
          ≡ uses_slot j t + (if k == j then n else 0))
    → n ≤ ch.limit
    → IsBalanced s
    → IsBalanced
        (record s { tasks = set s.tasks i u; channels = set s.channels k (record ch { held = n }) })
slot-IsBalanced i k n t u ch s g c e le b = record {
  balanced = λ j. ground (
    arith,
    b.balanced j,
    sum_by-set (uses_slot j) s.tasks i t u g,
    get_elem?-set s.channels k j ch (record ch { held = n }) c,
    e j,
  );
  sound =
      All-set IsSound s.channels k (record ch { held = n }) b.sound
        (le, (All-get_elem? IsSound s.channels k ch b.sound c).1);
}
