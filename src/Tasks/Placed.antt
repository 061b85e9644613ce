-- ===== src/Tasks/Placed.antt =====
-- Where the tasks of a queue are, and the limit of their channel.
use altclaw.Common.{
  map-append, ℕ, zero, suc, Bool, true, false, Option, none, some, List, [], ◌∷◌, ◌++◌, ◌&&◌, ◌||◌,
  not, Bytes, ◌==◌, if◌then◌else◌, length, get_elem?, map, all, all-append, sum_by, lookup,
  bytes_eq, text_eq, arith, ◌≡◌, refl,
}
use altclaw.Tasks.{waiting, Channel, Task, Tasks, limit_of, has_limit, spawn, Event, runs}
use altclaw.Tasks.Slots.{is_on, is_running}
use altclaw.Tasks.Frame.{place, places, limits}

abbrev pub is_named : Bytes → Option Bytes → Bool
is_named q none = false
is_named q (some name) = text_eq name q

abbrev pub runs_in : Bytes → Task → ℕ
runs_in q t = if is_running t.phase && is_named q t.name then 1 else 0

-- The number of the queue's tasks that run.
abbrev pub running_in : Bytes → List Task → ℕ
running_in q ts = sum_by (runs_in q) ts

-- A call of `task.run` that gives the queue no other limit.
abbrev pub agrees : Bytes → ℕ → Event → Bool
agrees q n (runs (some (name, limit))) = if text_eq name q then limit_of limit == n else true
agrees q n _ = true

-- A task of the queue has the queue's present channel.
abbrev pub is_placed : Bytes → Option ℕ → Option Bytes × Option ℕ → Bool
is_placed q none (name, _) = not (is_named q name)
is_placed q (some j) (name, channel) = not (is_named q name) || is_on channel j

abbrev pub has_value : ℕ → Option ℕ → Bool
has_value n none = false
has_value n (some m) = m == n

abbrev pub at_limit : ℕ → Option ℕ → List ℕ → Bool
at_limit n none ls = true
at_limit n (some j) ls = has_value n (get_elem? ls j)

pub record IsKept (q : Bytes) (n : ℕ) (s : Tasks) : Type 0 where
  pub placed : all (is_placed q (lookup q s.queues)) (places s) ≡ true
  pub limit : at_limit n (lookup q s.queues) (limits s) ≡ true

pub has_limit-has_value :
    (n : ℕ) (chs : List Channel) (j : ℕ)
    → has_value n (get_elem? (map (λ ch. ch.limit) chs) j) ≡ has_limit n (get_elem? chs j)
has_limit-has_value n [] j = refl
has_limit-has_value n (ch ∷ chs) zero = refl
has_limit-has_value n (ch ∷ chs) (suc j) = has_limit-has_value n chs j

pub spawn-IsKept :
    (q : Bytes) (n : ℕ) (name : Option Bytes) (channel : Option ℕ) (s : Tasks)
    → is_placed q (lookup q s.queues) (name, channel) ≡ true
    → IsKept q n s
    → IsKept q n (spawn name channel s)
unfolding spawn
spawn-IsKept q n name channel s h k = record {
  placed = ground (
    arith,
    h,
    k.placed,
    map-append place s.tasks new,
    all-append (is_placed q (lookup q s.queues)) (places s) ((name, channel) ∷ []),
  );
  limit = k.limit;
}
  where
    new : Task
    new = record {
      name = name;
      channel = channel;
      phase = waiting;
      is_cancelled = false;
      has_handle = true;
    }

pub all-is_placed-none :
    (q : Bytes) (j : ℕ) (ps : List (Option Bytes × Option ℕ))
    → all (is_placed q none) ps ≡ true
    → all (is_placed q (some j)) ps ≡ true
all-is_placed-none q j [] h = refl
all-is_placed-none q j (p ∷ ps) h = ground (arith, all-is_placed-none q j ps)

pub has_value-snoc :
    (n m j : ℕ) (ls : List ℕ)
    → has_value n (get_elem? ls j) ≡ true
    → has_value n (get_elem? (ls ++ m ∷ []) j) ≡ true
has_value-snoc n m j [] h = absurd (ground arith)
has_value-snoc n m zero (l ∷ ls) h = h
has_value-snoc n m (suc j) (l ∷ ls) h = has_value-snoc n m j ls h

pub has_value-last :
    (n : ℕ) (ls : List ℕ) (m : ℕ) → length ls ≡ m → has_value n (get_elem? (ls ++ n ∷ []) m) ≡ true
has_value-last n [] zero h = ground arith
has_value-last n [] (suc m) h = absurd (omega arith)
has_value-last n (l ∷ ls) zero h = absurd (omega arith)
has_value-last n (l ∷ ls) (suc m) h = has_value-last n ls m (omega arith)

pub at_limit-snoc :
    (n m : ℕ) (o : Option ℕ) (ls : List ℕ)
    → at_limit n o ls ≡ true
    → at_limit n o (ls ++ m ∷ []) ≡ true
at_limit-snoc n m none ls h = refl
at_limit-snoc n m (some j) ls h = has_value-snoc n m j ls h
