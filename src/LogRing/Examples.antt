-- ===== src/LogRing/Examples.antt =====
-- A buffer of two places after three records.
use altclaw.Common.{ℕ, ◌≡◌, refl, List, [], ◌∷◌, codes}
use altclaw.LogRing.{LogEntry, new_log_buffer, recent, recent_from, read, slot, handle}
use altclaw.LogRing.Refines.{handle_all, recent-handle_all}

abbrev record_of : ℕ → LogEntry
record_of t = record { time = t; level = codes "INFO"; msg = codes "started"; attrs = [] }

abbrev three : List LogEntry
three = record_of 1 ∷ record_of 2 ∷ record_of 3 ∷ []

recent-three : recent (handle_all (new_log_buffer 2) three) 0 ≡ record_of 3 ∷ record_of 2 ∷ []
unfolding recent recent_from read slot handle handle_all new_log_buffer
recent-three = refl

recent-handle_all_example :
    recent (handle_all (new_log_buffer 2) three) 0 ≡ record_of 3 ∷ record_of 2 ∷ []
recent-handle_all_example = recent-handle_all 2 0 three
