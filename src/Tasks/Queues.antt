-- ===== src/Tasks/Queues.antt =====
-- How many tasks of a queue run at a time.
use altclaw.Common.{
  ℕ, ◌≤◌, true, Option, none, some, List, [], ◌∷◌, Bytes, get_elem?, map, all, All-get_elem?,
  lookup, bytes_eq, arith, ◌≡◌, refl, sym, ◌∙◌,
}
use altclaw.Tasks.{Channel, Task, Tasks, no_tasks, has_limit, Event, run_all}
use altclaw.Tasks.Invariant.{run_all-IsBalanced}
use altclaw.Tasks.Slots.{running_on, IsSound, IsBalanced}
use altclaw.Tasks.Frame.{place, places, limits}
use altclaw.Tasks.Kept.{run_all-IsKept}
use altclaw.Tasks.Placed.{is_placed, at_limit, has_limit-has_value, IsKept, agrees, running_in}

-- A task of the queue that runs has a slot of the queue's channel.
runs_in-le :
    (q : Bytes) (j : ℕ) (ts : List Task)
    → all (is_placed q (some j)) (map place ts) ≡ true
    → running_in q ts ≤ running_on j ts
runs_in-le q j [] h = omega arith
runs_in-le q j (t ∷ ts) h = ground (arith, runs_in-le q j ts)

runs_in-none :
    (q : Bytes) (ts : List Task)
    → all (is_placed q none) (map place ts) ≡ true
    → running_in q ts ≡ 0
runs_in-none q [] h = refl
runs_in-none q (t ∷ ts) h = ground (arith, runs_in-none q ts)

-- A channel never has more tasks running than its capacity, whatever the other steps are.
pub run_all-channel_bounded :
    (es : List Event) (s : Tasks) (j : ℕ) (ch : Channel)
    → run_all es no_tasks ≡ some s
    → get_elem? s.channels j ≡ some ch
    → running_on j s.tasks ≤ ch.limit
run_all-channel_bounded es s j ch h l =
    let b : IsBalanced s = run_all-IsBalanced es s h in
    let kept : IsSound ch = All-get_elem? IsSound s.channels j ch b.sound l in
    ground (arith, b.balanced j, l, kept.0)

-- If every `task.run` of the script that names the queue gives it the limit n, then after any steps
-- of the script and its goroutines at most n of the queue's tasks are running.
pub run_all-queue_bounded :
    (q : Bytes) (n : ℕ) (es : List Event) (s : Tasks)
    → all (agrees q n) es ≡ true
    → run_all es no_tasks ≡ some s
    → running_in q s.tasks ≤ n
run_all-queue_bounded q n es s a h =
    let k : IsKept q n s = run_all-IsKept q n es s a h in
    by_queue (lookup q s.queues) k.placed k.limit
  where
    by_channel :
        (j : ℕ) (f : Option Channel)
        → get_elem? s.channels j ≡ f
        → running_in q s.tasks ≤ running_on j s.tasks
        → has_limit n f ≡ true
        → running_in q s.tasks ≤ n
    by_channel j none l le e = absurd (ground arith)
    by_channel j (some ch) l le e =
        let bound : running_on j s.tasks ≤ ch.limit = run_all-channel_bounded es s j ch h l in
        ground (arith, bound, le, e)

    by_queue :
        (o : Option ℕ)
        → all (is_placed q o) (places s) ≡ true
        → at_limit n o (limits s) ≡ true
        → running_in q s.tasks ≤ n
    by_queue none p e = omega (arith, runs_in-none q s.tasks p)
    by_queue (some j) p e =
        by_channel j (get_elem? s.channels j) refl (runs_in-le q j s.tasks p)
          (sym (has_limit-has_value n s.channels j) ∙ e)
