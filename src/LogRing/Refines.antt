-- ===== src/LogRing/Refines.antt =====
-- The ring buffer against the list of all records, newest first.
use native.Mathlib.Nat.{mod-eq_of_lt, mod-eq-sub-mod, mod-lt}
use altclaw.Common.{
  ℕ, zero, suc, ◌+◌, ◌-◌, ◌%◌, ◌≤◌, ◌<◌, ◌≡◌, ◌≢◌, refl, sym, ◌∙◌, ap₂, some, List, [], ◌∷◌, ◌++◌,
  ◌||◌, reverse, ltb, ◌==◌, if◌then◌else◌, min, arith, length, take, drop, get_elem?, length-set,
  length-replicate, get_elem?-set_self, get_elem?-set_ne, reverse-cons, append_assoc, append-nil,
  subst, length-reverse,
}
use altclaw.LogRing.{LogEntry, LogBuffer, new_log_buffer, handle, slot, read, recent_from, recent}

-- `b` holds the newest of the records `h`, as many as fit.
pub record Holds (b : LogBuffer) (h : List LogEntry) : Type 0 where
  pub positive : 0 < b.size
  pub room : length b.entries ≡ b.size
  pub in_range : b.head < b.size
  pub counted : b.count ≡ min (length h) b.size
  pub newest : (i : ℕ) → i < b.count → get_elem? b.entries (slot b i) ≡ get_elem? h i

new_log_buffer-Holds : (n : ℕ) → Holds (new_log_buffer n) []
unfolding new_log_buffer
new_log_buffer-Holds n = record {
  positive = ground arith;
  room = length-replicate _ _;
  in_range = ground arith;
  counted = ground arith;
  newest = λ i h. absurd (omega arith);
}

-- Below twice the modulus a remainder takes at most one subtraction.
mod_once : (m n : ℕ) → m < n + n → m % n ≡ (if ltb m n then m else m - n)
mod_once m n h = grind (arith, mod-eq_of_lt, mod-eq-sub-mod)

module _ (b : LogBuffer) (h : List LogEntry) (e : LogEntry) (v : Holds b h) where
  slot-handle_zero : slot (handle b e) 0 ≡ b.head
  unfolding slot handle
  slot-handle_zero = ground (
    arith,
    mod_once (b.head + 1) b.size,
    mod_once (b.head + 1 + b.size - 1) b.size,
    mod_once (b.size - 1) b.size,
    mod_once ((b.head + 1) % b.size + b.size - 1) b.size,
  )

  slot-handle-suc : (i : ℕ) → suc i < b.size → slot (handle b e) (suc i) ≡ slot b i
  unfolding slot handle
  slot-handle-suc i k = ground (
    arith,
    mod_once (b.head + 1) b.size,
    mod_once (b.head + b.size - 1 - i) b.size,
    mod_once ((b.head + 1) % b.size + b.size - 1 - suc i) b.size,
  )

  slot-ne-head : (i : ℕ) → suc i < b.size → b.head ≢ slot b i
  unfolding slot
  slot-ne-head i k = ground (arith, mod_once (b.head + b.size - 1 - i) b.size)

  handle-newest :
      (i : ℕ)
      → i < (handle b e).count
      → get_elem? (handle b e).entries (slot (handle b e) i) ≡ get_elem? (e ∷ h) i
  handle-newest zero k =
      rw slot-handle_zero
        (unfold handle in get_elem?-set_self b.entries b.head e (omega (arith, v.room, v.in_range)))
  handle-newest (suc i) k =
      let inside : suc i < b.size = unfold handle in ground (arith, v.counted) in
      let old : i < b.count = unfold handle in ground (arith, v.counted) in
      let kept : get_elem? (handle b e).entries (slot b i) ≡ get_elem? b.entries (slot b i) =
        (unfold handle in get_elem?-set_ne b.entries b.head (slot b i) e (slot-ne-head i inside)) in
      rw (slot-handle-suc i inside) (kept ∙ v.newest i old)

  handle-Holds : Holds (handle b e) (e ∷ h)
  handle-Holds = record {
    positive = unfold handle in v.positive;
    room = unfold handle in (length-set b.entries b.head e ∙ v.room);
    in_range = unfold handle in mod-lt (b.head + 1) v.positive;
    counted = unfold handle in ground (arith, v.counted);
    newest = handle-newest;
  }

unfoldable pub handle_all : LogBuffer → List LogEntry → LogBuffer
handle_all b [] = b
handle_all b (e ∷ es) = handle_all (handle b e) es

handle_all-Holds :
    (b : LogBuffer) (h es : List LogEntry) → Holds b h → Holds (handle_all b es) (reverse es ++ h)
unfolding handle_all
handle_all-Holds b h [] v = v
handle_all-Holds b h (e ∷ es) v =
    subst (λ k. Holds (handle_all (handle b e) es) k) (sym (reverse-cons-append e es h))
      (handle_all-Holds (handle b e) (e ∷ h) es (handle-Holds b h e v))
  where
    reverse-cons-append :
        (e : LogEntry) (es h : List LogEntry) → reverse (e ∷ es) ++ h ≡ reverse es ++ e ∷ h
    reverse-cons-append e es h = simp (reverse-cons, append_assoc)

handle_all-size : (b : LogBuffer) (es : List LogEntry) → (handle_all b es).size ≡ b.size
unfolding handle_all handle
handle_all-size b [] = refl
handle_all-size b (e ∷ es) = handle_all-size (handle b e) es

take-of_get_elem? :
    (xs : List LogEntry) (i : ℕ) (e : LogEntry) (n : ℕ)
    → get_elem? xs i ≡ some e
    → take (suc n) (drop i xs) ≡ e ∷ take n (drop (suc i) xs)
take-of_get_elem? [] i e n p = cc
take-of_get_elem? (x ∷ xs) zero e n p = ground arith
take-of_get_elem? (x ∷ xs) (suc i) e n p = take-of_get_elem? xs i e n p

get_elem?-lt :
    (xs : List LogEntry) (i : ℕ) → i < length xs → (e : LogEntry) × (get_elem? xs i ≡ some e)
get_elem?-lt [] i k = elim k [ ]
get_elem?-lt (x ∷ xs) zero k = (x, refl)
get_elem?-lt (x ∷ xs) (suc i) k = get_elem?-lt xs i (omega arith)

read_of_get_elem? :
    (b : LogBuffer) (i : ℕ) (e : LogEntry) → get_elem? b.entries (slot b i) ≡ some e → read b i ≡ e
unfolding read
read_of_get_elem? b i e p = ground arith

recent_from-take :
    (b : LogBuffer) (h : List LogEntry) (i n : ℕ)
    → Holds b h
    → i + n ≤ b.count
    → recent_from b i n ≡ take n (drop i h)
unfolding recent_from
recent_from-take b h i zero v k = refl
recent_from-take b h i (suc n) v k =
    let (e, there) = get_elem?-lt h i (omega (arith, v.counted)) in
    let found = v.newest i (omega arith) ∙ there in
    ap₂ (λ x es. x ∷ es) (read_of_get_elem? b i e found)
      (recent_from-take b h (suc i) n v (omega arith))
    ∙ sym (take-of_get_elem? h i e n there)

-- After any records, in a buffer made with any size, `recent n` lists the last n records, newest
-- first: all that are kept if n is 0 or larger than their number, which is the number of records
-- up to the buffer's size.
pub recent-handle_all :
    (size n : ℕ) (es : List LogEntry)
    → let cap = if size == 0 then 200 else size in
      let kept = min (length es) cap in
      recent (handle_all (new_log_buffer size) es) n
      ≡ take (if n == 0 || ltb kept n then kept else n) (reverse es)
unfolding recent
recent-handle_all size n es =
    let b = handle_all (new_log_buffer size) es in
    let v = handle_all-Holds (new_log_buffer size) [] es (new_log_buffer-Holds size) in
    let w : Holds b (reverse es) = subst (λ h. Holds b h) (append-nil (reverse es)) v in
    let cap : b.size ≡ (if size == 0 then 200 else size) =
      (handle_all-size (new_log_buffer size) es ∙ (unfold new_log_buffer in refl)) in
    let kept : b.count ≡ min (length es) (if size == 0 then 200 else size) =
      w.counted ∙ ap₂ min (length-reverse es) cap in
    rw (← kept) (recent_from-take b (reverse es) 0 _ w (ground arith))
