-- ===== src/Pool/Balance.antt =====
-- Every connection that a pool opened is in the pool or was closed once.
use altclaw.Common.{
  ℕ, ◌+◌, Bool, true, false, Option, none, some, List, [], ◌∷◌, ◌++◌, not, if◌then◌else◌, length,
  lookup, lookup-remove, Bytes, bytes_eq, arith, ◌≡◌, refl, subst, some-inj,
}
use altclaw.Paths.{Components, Files}
use altclaw.Pool.{
  Conn, Pool, new_pool, World, Answer, target, close_handle, close_found, close_key, keep_conn,
  open_log, open_new, get_found, get_target, get_driver, get_db, put_bucket, touch_found,
  get_bucket, handles, close_all, reaped, reap, Event, gets, puts, touches, closes, closes_all,
  passes, reaps, step, and_then, run_all, open_failed, connect_failed, handle, driver_map,
}
use altclaw.Pool.Distinct.{
  distinct, distinct-remove, distinct-insert, sum_by-removed, sum_by-insert_new, sum_by-insert,
}
use altclaw.Pool.Counts.{
  holds, open_count, closed_count, opened_count, sum_by-append, sum_by-handles, sum_by-reaped,
  distinct-reaped,
}

record IsBalanced (s : Pool) : Type 0 where
  pub distinct_keys : distinct s.conns ≡ true
  pub balance : (h : ℕ) → open_count h s + closed_count h s ≡ opened_count h s

close_found-IsBalanced :
    (o : Option Conn) (key : Bytes) (s : Pool)
    → lookup key s.conns ≡ o
    → IsBalanced s
    → IsBalanced (close_found o key s)
unfolding close_found
close_found-IsBalanced none key s l b = b
close_found-IsBalanced (some c) key s l b = record {
  distinct_keys = distinct-remove key s.conns b.distinct_keys;
  balance =
      λ h. omega (arith, b.balance h, sum_by-removed (holds h) key c s.conns b.distinct_keys l);
}

close_key-IsBalanced : (key : Bytes) (s : Pool) → IsBalanced s → IsBalanced (close_key key s)
unfolding close_key
close_key-IsBalanced key s b = close_found-IsBalanced (lookup key s.conns) key s refl b

-- After `Close` the key is free.
close_key-lookup : (key : Bytes) (s : Pool) → lookup key (close_key key s).conns ≡ none
unfolding close_key close_found
close_key-lookup key s = by_found (lookup key s.conns) refl
  where
    by_found :
        (o : Option Conn) → lookup key s.conns ≡ o → lookup key (close_found o key s).conns ≡ none
    by_found none l = l
    by_found (some c) l = ground (arith, lookup-remove key key s.conns, bytes_eq.beq_iff key key)

open_keep-IsBalanced :
    (key driver t : Bytes) (s : Pool)
    → lookup key s.conns ≡ none
    → IsBalanced s
    → IsBalanced (keep_conn key (length s.opened) (open_log driver t s))
open_keep-IsBalanced key driver t s l b = record {
  distinct_keys =
      distinct-insert key (record { handle = length s.opened; last_access = s.now }) s.conns
        b.distinct_keys;
  balance = λ h. ground (
    arith,
    b.balance h,
    sum_by-insert_new (holds h) key (record { handle = length s.opened; last_access = s.now })
        s.conns l,
  );
}

open_new-IsBalanced :
    (w : World) (driver t key : Bytes) (s : Pool)
    → lookup key s.conns ≡ none
    → IsBalanced s
    → IsBalanced (open_new w driver t key s).1
unfolding open_new
open_new-IsBalanced w driver t key s l b = by_world w.opens w.pings_new
  where
    failed : IsBalanced (close_handle (length s.opened) (open_log driver t s))
    failed = record { distinct_keys = b.distinct_keys; balance = λ h. ground (arith, b.balance h) }

    by_world :
        (o p : Bool)
        → IsBalanced
            (if◌then◌else◌ {A = Answer × Pool}
              (not o)
              (open_failed, s)
              (if not p
                then (connect_failed, close_handle (length s.opened) (open_log driver t s))
                else (
                  handle (length s.opened),
                  keep_conn key (length s.opened) (open_log driver t s),
                ))).1
    by_world false p = b
    by_world true false = failed
    by_world true true = open_keep-IsBalanced key driver t s l b

touch-IsBalanced :
    (key : Bytes) (c : Conn) (s : Pool)
    → lookup key s.conns ≡ some c
    → IsBalanced s
    → IsBalanced (keep_conn key c.handle s)
touch-IsBalanced key c s l b = record {
  distinct_keys =
      distinct-insert key (record { handle = c.handle; last_access = s.now }) s.conns
        b.distinct_keys;
  balance = λ h. omega (
    arith,
    b.balance h,
    sum_by-insert (holds h) key c (record { handle = c.handle; last_access = s.now }) s.conns
        b.distinct_keys l,
  );
}

get_found-IsBalanced :
    (o : Option Conn) (w : World) (driver t key : Bytes) (s : Pool)
    → lookup key s.conns ≡ o
    → IsBalanced s
    → IsBalanced (get_found o w driver t key s).1
unfolding get_found
get_found-IsBalanced none w driver t key s l b = open_new-IsBalanced w driver t key s l b
get_found-IsBalanced (some c) w driver t key s l b =
    elim w.pings_old
      as (λ p.
        IsBalanced
          (if◌then◌else◌ {A = Answer × Pool} p (handle c.handle, keep_conn key c.handle s)
            (open_new w driver t key (close_key key s))).1) [
              | true ↦ touch-IsBalanced key c s l b
              | false ↦
                  open_new-IsBalanced w driver t key (close_key key s) (close_key-lookup key s)
                    (close_key-IsBalanced key s b)
            ]

get_db-IsBalanced :
    (f : Files) (ws : Components) (w : World) (driver conn_str : Bytes) (s : Pool)
    → IsBalanced s
    → IsBalanced (get_db f ws w driver conn_str s).1
unfolding get_db get_driver get_target
get_db-IsBalanced f ws w driver conn_str s b = by_driver (lookup (f.to_lower driver) driver_map)
  where
    by_target : (o : Option Bytes) (d key : Bytes) → IsBalanced (get_target o w d key s).1
    by_target none d key = b
    by_target (some t) d key = get_found-IsBalanced (lookup key s.conns) w d t key s refl b

    by_driver :
        (o : Option Bytes)
        → IsBalanced (get_driver f ws o w (driver ++ (58 ∷ conn_str)) conn_str s).1
    by_driver none = b
    by_driver (some d) = by_target (target f ws d conn_str) d (driver ++ (58 ∷ conn_str))

put_bucket-IsBalanced :
    (driver t key : Bytes) (s : Pool) → IsBalanced s → IsBalanced (put_bucket driver t key s)
unfolding put_bucket
put_bucket-IsBalanced driver t key s b =
    open_keep-IsBalanced key driver t (close_key key s) (close_key-lookup key s)
      (close_key-IsBalanced key s b)

get_bucket-IsBalanced : (key : Bytes) (s : Pool) → IsBalanced s → IsBalanced (get_bucket key s).1
unfolding get_bucket touch_found
get_bucket-IsBalanced key s b = by_found (lookup key s.conns) refl
  where
    by_found : (o : Option Conn) → lookup key s.conns ≡ o → IsBalanced (touch_found o key s).1
    by_found none l = b
    by_found (some c) l = touch-IsBalanced key c s l b

close_all-IsBalanced : (s s' : Pool) → close_all s ≡ some s' → IsBalanced s → IsBalanced s'
unfolding close_all
close_all-IsBalanced s s' e b = by_stopped s.is_stopped e
  where
    emptied : Pool
    emptied = record s { conns = []; closed = handles s.conns ++ s.closed; is_stopped = true }

    by_stopped :
        (x : Bool) → if◌then◌else◌ {A = Option Pool} x none (some emptied) ≡ some s' → IsBalanced s'
    by_stopped true k = absurd (ground arith)
    by_stopped false k = subst IsBalanced (some-inj emptied s' k) (record {
      distinct_keys = refl;
      balance = λ h. omega (
        arith,
        b.balance h,
        sum_by-append h (handles s.conns) s.closed,
        sum_by-handles h s.conns,
      );
    })

reap-IsBalanced : (s : Pool) → IsBalanced s → IsBalanced (reap s)
unfolding reap
reap-IsBalanced s b = record {
  distinct_keys = distinct-reaped s.now s.conns b.distinct_keys;
  balance = λ h. omega (
    arith,
    b.balance h,
    sum_by-append h (reaped s.now s.conns).0 s.closed,
    sum_by-reaped h s.now s.conns,
  );
}

step-IsBalanced :
    (f : Files) (ws : Components) (e : Event) (s s' : Pool)
    → step f ws e s ≡ some s'
    → IsBalanced s
    → IsBalanced s'
unfolding step
step-IsBalanced f ws (gets w driver conn_str) s s' h b =
    subst IsBalanced (some-inj _ s' h) (get_db-IsBalanced f ws w driver conn_str s b)
step-IsBalanced f ws (puts driver t key) s s' h b =
    subst IsBalanced (some-inj _ s' h) (put_bucket-IsBalanced driver t key s b)
step-IsBalanced f ws (touches key) s s' h b =
    subst IsBalanced (some-inj _ s' h) (get_bucket-IsBalanced key s b)
step-IsBalanced f ws (closes key) s s' h b =
    subst IsBalanced (some-inj _ s' h) (close_key-IsBalanced key s b)
step-IsBalanced f ws closes_all s s' h b = close_all-IsBalanced s s' h b
step-IsBalanced f ws (passes d) s s' h b =
    subst IsBalanced (some-inj _ s' h)
      (record { distinct_keys = b.distinct_keys; balance = b.balance })
step-IsBalanced f ws reaps s s' h b = by_stopped s.is_stopped h
  where
    by_stopped :
        (x : Bool)
        → if◌then◌else◌ {A = Option Pool} x none (some (reap s)) ≡ some s'
        → IsBalanced s'
    by_stopped true k = absurd (ground arith)
    by_stopped false k = subst IsBalanced (some-inj (reap s) s' k) (reap-IsBalanced s b)

steps-IsBalanced :
    (f : Files) (ws : Components) (es : List Event) (s s' : Pool)
    → run_all f ws es s ≡ some s'
    → IsBalanced s
    → IsBalanced s'
unfolding run_all
steps-IsBalanced f ws [] s s' h b = subst IsBalanced (some-inj s s' h) b
steps-IsBalanced f ws (e ∷ es) s s' h b =
    by_step (step f ws e s) refl h (λ u. steps-IsBalanced f ws es u s')
  where
    by_step :
        (o : Option Pool)
        → step f ws e s ≡ o
        → and_then o (run_all f ws es) ≡ some s'
        → ((u : Pool) → run_all f ws es u ≡ some s' → IsBalanced u → IsBalanced s')
        → IsBalanced s'
    by_step none l k rest = absurd (ground arith)
    by_step (some u) l k rest = rest u k (step-IsBalanced f ws e s u l b)

new_pool-IsBalanced : IsBalanced new_pool
new_pool-IsBalanced = record { distinct_keys = refl; balance = λ h. ground arith }

-- After any calls of a pool, ticks of its reaper and lapses of time, each connection that was opened is
-- either in the pool under one key or was closed exactly once, and not both; and no other is.
pub run_all-balanced :
    (f : Files) (ws : Components) (es : List Event) (s : Pool) (h : ℕ)
    → run_all f ws es new_pool ≡ some s
    → open_count h s + closed_count h s ≡ opened_count h s
run_all-balanced f ws es s h e =
    let b : IsBalanced s = steps-IsBalanced f ws es new_pool s e new_pool-IsBalanced in b.balance h
