-- ===== src/Pool/Jail.antt =====
-- The database files that a pool opens are in the workspace.
use altclaw.Common.{
  Bool, true, false, Option, none, some, List, [], ◌∷◌, ◌++◌, ◌&&◌, not, All, all, if◌then◌else◌,
  length, lookup, Bytes, bytes_eq, codes, text_eq, text_eq_iff, has_prefix, ◌||◌, ◌⊎◌, inl, inr,
  arith, ◌≡◌, refl, sym, subst, some-inj,
}
use altclaw.Paths.{Components, Files, join, Sanitized, within, invalid, escapes, sanitize_path}
use altclaw.Paths.Real.{IsSettled}
use altclaw.Paths.Within.{IsBelow, sanitize_path_iff}
use altclaw.Pool.{
  Conn, Pool, new_pool, World, Answer, has_memory_name, path_of, target, close_handle, close_found,
  close_key, keep_conn, open_log, open_new, get_found, get_target, get_driver, get_db, touch_found,
  get_bucket, close_all, reap, Event, gets, puts, touches, closes, closes_all, passes, reaps, step,
  and_then, run_all, open_failed, connect_failed, handle, driver_map,
}

module _ (f : Files) (ws : Components) where
  -- Another driver, one of the two kinds of names, or the path of a file that lies below the
  -- workspace, with the links of the workspace resolved where they can be.
  abbrev pub IsJailed : Bytes × Bytes → Type 0
  IsJailed (driver, t) =
      (text_eq driver (codes "sqlite") ≡ false)
      ⊎ (t ≡ codes ":memory:")
      ⊎ (has_prefix t (codes "file::memory:") ≡ true)
      ⊎ ((p : Components) × (t ≡ 47 ∷ join p)
          × (root : Components) × IsSettled f ws root
          × IsBelow root p)

  path_of-IsJailed :
      (driver conn_str t : Bytes) (r : Sanitized)
      → sanitize_path f ws conn_str ≡ r
      → path_of r ≡ some t
      → IsJailed (driver, t)
  path_of-IsJailed driver conn_str t (within p) e h =
      let (_, root, settled, below) = (sanitize_path_iff f ws conn_str p).0 e in
      inr (inr (inr (p, sym (some-inj (47 ∷ join p) t h), root, settled, below)))
  path_of-IsJailed driver conn_str t invalid e h = absurd (ground arith)
  path_of-IsJailed driver conn_str t escapes e h = absurd (ground arith)

  has_memory_name-IsJailed :
      (driver t : Bytes) (colon uri : Bool)
      → text_eq t (codes ":memory:") ≡ colon
      → has_prefix t (codes "file::memory:") ≡ uri
      → (colon || uri) ≡ true
      → IsJailed (driver, t)
  has_memory_name-IsJailed driver t true uri c u h =
      inr (inl ((text_eq_iff t (codes ":memory:")).0 c))
  has_memory_name-IsJailed driver t false true c u h = inr (inr (inl u))
  has_memory_name-IsJailed driver t false false c u h = absurd (cc)

  target-IsJailed :
      (driver conn_str t : Bytes) → target f ws driver conn_str ≡ some t → IsJailed (driver, t)
  unfolding target
  target-IsJailed driver conn_str t =
      by_driver (text_eq driver (codes "sqlite")) (has_memory_name conn_str) refl refl
    where
      by_driver :
          (b m : Bool)
          → text_eq driver (codes "sqlite") ≡ b
          → has_memory_name conn_str ≡ m
          → (if b && not m then path_of (sanitize_path f ws conn_str) else some conn_str) ≡ some t
          → IsJailed (driver, t)
      by_driver true false d e h =
          path_of-IsJailed driver conn_str t (sanitize_path f ws conn_str) refl h
      by_driver true true d e h =
          subst (λ x. IsJailed (driver, x)) (some-inj conn_str t h)
            (has_memory_name-IsJailed driver conn_str (text_eq conn_str (codes ":memory:"))
              (has_prefix conn_str (codes "file::memory:")) refl refl e)
      by_driver false m d e h = inl d

  abbrev Jailed : Pool → Type 0
  Jailed s = All IsJailed s.opened

  open_new-Jailed :
      (w : World) (driver t key : Bytes) (s : Pool)
      → IsJailed (driver, t)
      → Jailed s
      → Jailed (open_new w driver t key s).1
  unfolding open_new
  open_new-Jailed w driver t key s j k = by_world w.opens w.pings_new
    where
      by_world :
          (o p : Bool)
          → Jailed
              (if◌then◌else◌ {A = Answer × Pool}
                (not o)
                (open_failed, s)
                (if not p
                  then (connect_failed, close_handle (length s.opened) (open_log driver t s))
                  else (
                    handle (length s.opened),
                    keep_conn key (length s.opened) (open_log driver t s),
                  ))).1
      by_world false p = k
      by_world true false = (j, k)
      by_world true true = (j, k)

  close_found-opened :
      (o : Option Conn) (key : Bytes) (s : Pool) → (close_found o key s).opened ≡ s.opened
  unfolding close_found
  close_found-opened none key s = refl
  close_found-opened (some c) key s = refl

  close_key-Jailed : (key : Bytes) (s : Pool) → Jailed s → Jailed (close_key key s)
  unfolding close_key
  close_key-Jailed key s k =
      subst (All IsJailed) (sym (close_found-opened (lookup key s.conns) key s)) k

  get_found-Jailed :
      (o : Option Conn) (w : World) (driver t key : Bytes) (s : Pool)
      → IsJailed (driver, t)
      → Jailed s
      → Jailed (get_found o w driver t key s).1
  unfolding get_found
  get_found-Jailed none w driver t key s j k = open_new-Jailed w driver t key s j k
  get_found-Jailed (some c) w driver t key s j k =
      elim w.pings_old
        as (λ p.
          Jailed
            (if◌then◌else◌ {A = Answer × Pool} p (handle c.handle, keep_conn key c.handle s)
              (open_new w driver t key (close_key key s))).1) [
                | true ↦ k
                | false ↦
                    open_new-Jailed w driver t key (close_key key s) j (close_key-Jailed key s k)
              ]

  get_db-Jailed :
      (w : World) (driver conn_str : Bytes) (s : Pool)
      → Jailed s
      → Jailed (get_db f ws w driver conn_str s).1
  unfolding get_db get_driver get_target
  get_db-Jailed w driver conn_str s k = by_driver (lookup (f.to_lower driver) driver_map)
    where
      key : Bytes
      key = driver ++ (58 ∷ conn_str)

      by_target :
          (d : Bytes) (o : Option Bytes)
          → target f ws d conn_str ≡ o
          → Jailed (get_target o w d key s).1
      by_target d none e = k
      by_target d (some t) e =
          get_found-Jailed (lookup key s.conns) w d t key s (target-IsJailed d conn_str t e) k

      by_driver : (o : Option Bytes) → Jailed (get_driver f ws o w key conn_str s).1
      by_driver none = k
      by_driver (some d) = by_target d (target f ws d conn_str) refl

  -- A call that only the pool of buckets has.
  abbrev pub is_put : Event → Bool
  is_put (puts _ _ _) = true
  is_put _ = false

  touch_found-opened :
      (o : Option Conn) (key : Bytes) (s : Pool) → (touch_found o key s).1.opened ≡ s.opened
  unfolding touch_found
  touch_found-opened none key s = refl
  touch_found-opened (some c) key s = refl

  step-Jailed :
      (e : Event) (s s' : Pool) → is_put e ≡ false → step f ws e s ≡ some s' → Jailed s → Jailed s'
  unfolding step get_bucket close_all reap
  step-Jailed (gets w driver conn_str) s s' n h k =
      subst Jailed (some-inj _ s' h) (get_db-Jailed w driver conn_str s k)
  step-Jailed (puts driver t key) s s' n h k = absurd (ground arith)
  step-Jailed (touches key) s s' n h k =
      subst Jailed (some-inj _ s' h)
        (subst (All IsJailed) (sym (touch_found-opened (lookup key s.conns) key s)) k)
  step-Jailed (closes key) s s' n h k = subst Jailed (some-inj _ s' h) (close_key-Jailed key s k)
  step-Jailed closes_all s s' n h k = subst (All IsJailed) (ground arith) k
  step-Jailed (passes d) s s' n h k = subst Jailed (some-inj _ s' h) k
  step-Jailed reaps s s' n h k = subst (All IsJailed) (ground arith) k

  steps-Jailed :
      (es : List Event) (s s' : Pool)
      → all (λ e. not (is_put e)) es ≡ true
      → All IsJailed s.opened
      → run_all f ws es s ≡ some s'
      → All IsJailed s'.opened
  unfolding run_all
  steps-Jailed [] s s' n k h = subst Jailed (some-inj s s' h) k
  steps-Jailed (e ∷ es) s s' n k h =
      by_step (step f ws e s) refl h (λ u j. steps-Jailed es u s' (ground arith) j)
    where
      by_step :
          (o : Option Pool)
          → step f ws e s ≡ o
          → and_then o (run_all f ws es) ≡ some s'
          → ((u : Pool) → Jailed u → run_all f ws es u ≡ some s' → Jailed s')
          → Jailed s'
      by_step none l r rest = absurd (ground arith)
      by_step (some u) l r rest = rest u (step-Jailed e s u (ground arith) l k) r

  -- After any steps of a new pool of databases, each connection that was opened with the driver for
  -- SQLite is to the name ":memory:", to a name that begins with "file::memory:", or to a path below
  -- the workspace (with its links resolved where they can be) by a rest that does not begin with two
  -- dots.
  pub run_all-IsJailed :
      (es : List Event) (s : Pool)
      → all (λ e. not (is_put e)) es ≡ true
      → run_all f ws es new_pool ≡ some s
      → All IsJailed s.opened
  run_all-IsJailed es s n h = steps-Jailed es new_pool s n tt h
