-- ===== src/Pool/Examples.antt =====
-- A pool at concrete inputs.
use altclaw.Common.{
  ◌+◌, true, false, Option, none, some, List, All, [], ◌∷◌, codes, text_eq, has_prefix, lookup,
  insert, remove, ◌≡◌, refl,
}
use altclaw.Paths.{resolved, Files, sanitize_path}
use altclaw.Pool.{Pool, new_pool, World, Event, gets, closes_all, passes, reaps, run_all}
use altclaw.Pool.Counts.{open_count, closed_count, opened_count}
use altclaw.Pool.Balance.{run_all-balanced}
use altclaw.Pool.Jail.{IsJailed, run_all-IsJailed}

-- No links, and text that is in lower case.
abbrev plain_files : Files
plain_files = record {
  eval_symlinks = λ p. resolved p;
  lines = λ p. none;
  matches = λ pattern name. false;
  trim_space = λ s. s;
  to_lower = λ s. s;
}

abbrev works : World
works = record { pings_old = true; opens = true; pings_new = true }

abbrev broken : World
broken = record { pings_old = false; opens = true; pings_new = true }

-- The second call finds the connection dead, the third one opens another, and the reaper closes both
-- that are left.
abbrev calls : List Event
calls =
    gets works (codes "sqlite") (codes "a.db")
    ∷ gets broken (codes "sqlite") (codes "a.db")
    ∷ gets works (codes "mysql") (codes "db")
    ∷ passes 300000000001
    ∷ reaps
    ∷ []

abbrev reached : Option Pool → Pool
reached none = new_pool
reached (some s) = s

abbrev calls_after : Pool
calls_after = reached (run_all plain_files (codes "w" ∷ []) calls new_pool)

calls_run : run_all plain_files (codes "w" ∷ []) calls new_pool ≡ some calls_after
unfolding run_all lookup insert remove text_eq has_prefix sanitize_path
calls_run = refl

all_closed : calls_after.closed ≡ 2 ∷ 1 ∷ 0 ∷ []
unfolding run_all lookup insert remove text_eq has_prefix sanitize_path
all_closed = refl

file_in_workspace :
    calls_after.opened
    ≡ (codes "mysql", codes "db")
      ∷ (codes "sqlite", codes "/w/a.db")
      ∷ (codes "sqlite", codes "/w/a.db")
      ∷ []
unfolding run_all lookup insert remove text_eq has_prefix sanitize_path
file_in_workspace = refl

run_all-balanced_example :
    open_count 1 calls_after + closed_count 1 calls_after ≡ opened_count 1 calls_after
run_all-balanced_example =
    run_all-balanced plain_files (codes "w" ∷ []) calls calls_after 1 calls_run

run_all-IsJailed_example : All (IsJailed plain_files (codes "w" ∷ [])) calls_after.opened
run_all-IsJailed_example =
    run_all-IsJailed plain_files (codes "w" ∷ []) calls calls_after refl calls_run

-- To close a pool twice is a panic.
closed_twice : run_all plain_files (codes "w" ∷ []) (closes_all ∷ closes_all ∷ []) new_pool ≡ none
unfolding run_all
closed_twice = refl

-- A connection that is opened after CloseAll stays open: the reaper has ended.
opened_after_close :
    (reached (
      run_all plain_files
        (codes "w" ∷ [])
        (closes_all ∷ gets works (codes "mysql") (codes "db") ∷ passes 300000000001 ∷ [])
        new_pool)).closed
    ≡ []
unfolding run_all lookup insert remove text_eq has_prefix sanitize_path
opened_after_close = refl
