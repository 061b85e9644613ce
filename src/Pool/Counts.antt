-- ===== src/Pool/Counts.antt =====
-- How often a handle is in a pool, and how often it was closed.
use altclaw.Common.{
  ℕ, ◌+◌, Bool, true, false, some, List, [], ◌∷◌, ◌++◌, ◌==◌, ltb, if◌then◌else◌, length, sum_by,
  lookup, Bytes, bytes_eq, text_eq, arith, ◌≡◌, refl,
}
use altclaw.Pool.{Conn, Pool, handles, is_idle, reaped}
use altclaw.Pool.Distinct.{is_free, distinct}

abbrev pub is_handle : ℕ → ℕ → ℕ
is_handle h k = if k == h then 1 else 0

abbrev pub holds : ℕ → Bytes × Conn → ℕ
holds h (_, c) = is_handle h c.handle

-- How often the handle is in the pool, and how often it was closed.
abbrev pub open_count : ℕ → Pool → ℕ
open_count h s = sum_by (holds h) s.conns

abbrev pub closed_count : ℕ → Pool → ℕ
closed_count h s = sum_by (is_handle h) s.closed

-- 1 for a handle that was opened.
abbrev pub opened_count : ℕ → Pool → ℕ
opened_count h s = if ltb h (length s.opened) then 1 else 0

pub sum_by-append :
    (h : ℕ) (xs ys : List ℕ)
    → sum_by (is_handle h) (xs ++ ys) ≡ sum_by (is_handle h) xs + sum_by (is_handle h) ys
sum_by-append h [] ys = omega arith
sum_by-append h (x ∷ xs) ys = omega (arith, sum_by-append h xs ys)

pub sum_by-handles :
    (h : ℕ) (m : List (Bytes × Conn)) → sum_by (is_handle h) (handles m) ≡ sum_by (holds h) m
sum_by-handles h [] = refl
sum_by-handles h ((k, c) ∷ m) = omega (arith, sum_by-handles h m)

pub sum_by-reaped :
    (h now : ℕ) (m : List (Bytes × Conn))
    → sum_by (is_handle h) (reaped now m).0 + sum_by (holds h) (reaped now m).1 ≡ sum_by (holds h) m
unfolding reaped
sum_by-reaped h now [] = refl
sum_by-reaped h now ((k, c) ∷ m) =
    elim (is_idle now c)
      as (λ b.
        let r =
          if◌then◌else◌ {A = List ℕ × List (Bytes × Conn)} b
            (c.handle ∷ (reaped now m).0, (reaped now m).1)
            ((reaped now m).0, (k, c) ∷ (reaped now m).1) in
        sum_by (is_handle h) r.0 + sum_by (holds h) r.1 ≡ sum_by (holds h) ((k, c) ∷ m)) [
          | true ↦ omega (arith, sum_by-reaped h now m)
          | false ↦ omega (arith, sum_by-reaped h now m)
        ]

pub lookup-reaped :
    (k : Bytes) (now : ℕ) (m : List (Bytes × Conn))
    → is_free (lookup k m) ≡ true
    → is_free (lookup k (reaped now m).1) ≡ true
unfolding reaped lookup
lookup-reaped k now [] h = refl
lookup-reaped k now ((j, c) ∷ m) h =
    by_idle (is_idle now c) (text_eq j k) refl h (lookup-reaped k now m)
  where
    by_idle :
        (i b : Bool)
        → text_eq j k ≡ b
        → is_free (if b then some c else lookup k m) ≡ true
        → (is_free (lookup k m) ≡ true → is_free (lookup k (reaped now m).1) ≡ true)
        → is_free (
            lookup k
              (if◌then◌else◌ {A = List ℕ × List (Bytes × Conn)} i
                (c.handle ∷ (reaped now m).0, (reaped now m).1)
                ((reaped now m).0, (j, c) ∷ (reaped now m).1)).1)
          ≡ true
    by_idle i true t e rest = absurd (ground arith)
    by_idle true false t e rest = rest e
    by_idle false false t e rest = rw t (rest e)

pub distinct-reaped :
    (now : ℕ) (m : List (Bytes × Conn)) → distinct m ≡ true → distinct (reaped now m).1 ≡ true
unfolding reaped
distinct-reaped now [] h = refl
distinct-reaped now ((k, c) ∷ m) h =
    elim (is_idle now c)
      as (λ i.
        distinct
          (if◌then◌else◌ {A = List ℕ × List (Bytes × Conn)} i
            (c.handle ∷ (reaped now m).0, (reaped now m).1)
            ((reaped now m).0, (k, c) ∷ (reaped now m).1)).1
        ≡ true) [
          | true ↦ distinct-reaped now m (ground (arith, h))
          | false ↦ ground (arith, h, distinct-reaped now m, lookup-reaped k now m)
        ]
