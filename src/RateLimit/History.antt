-- ===== src/RateLimit/History.antt =====
-- What the limiter promises, over the whole history of the events that it recorded.
use altclaw.Common.{
  ℕ, zero, suc, ◌≤◌, ◌≡◌, refl, List, [], ◌∷◌, ◌++◌, ◌&&◌, arith, Bytes, leb, if◌then◌else◌, length,
  keep, text_eq,
}
use altclaw.RateLimit.{is_recent, Verdict, allowed, rate_exceeded}

-- Every recorded event, oldest first.
abbrev pub History : Type 0
History = List (Bytes × ℕ)

abbrev pub times_of : Bytes → History → List ℕ
times_of key [] = []
times_of key ((j, t) ∷ h) = if text_eq j key then t ∷ times_of key h else times_of key h

-- How many events of the key lie in the minute that ends at `now`.
abbrev pub recent_count : ℕ → Bytes → History → ℕ
recent_count now key h = length (keep (is_recent now) (times_of key h))

-- The contract: an event passes exactly if fewer than `limit` passed in the last minute.
unfoldable pub spec_allow : History → ℕ → Bytes → ℕ → History × Verdict
spec_allow h now key zero = (h, allowed)
spec_allow h now key (suc n) =
    if leb (suc n) (recent_count now key h)
    then (h, rate_exceeded (suc n) key)
    else (h ++ (key, now) ∷ [], allowed)

pub times_of-append :
    (key : Bytes) (h k : History) → times_of key (h ++ k) ≡ times_of key h ++ times_of key k
times_of-append key [] k = refl
times_of-append key ((j, t) ∷ h) k = ground (arith, times_of-append key h k)

-- Forgetting what has expired at an earlier time changes nothing at a later one.
is_recent_mono :
    (now later t : ℕ) → now ≤ later → (is_recent now t && is_recent later t) ≡ is_recent later t
is_recent_mono now later t h = ground arith

pub keep_recent_later :
    (now later : ℕ) (ts : List ℕ)
    → now ≤ later
    → keep (is_recent later) (keep (is_recent now) ts) ≡ keep (is_recent later) ts
keep_recent_later now later [] h = refl
keep_recent_later now later (t ∷ ts) h = ground (arith, keep_recent_later now later ts h)
