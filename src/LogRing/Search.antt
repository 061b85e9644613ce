-- ===== src/LogRing/Search.antt =====
-- internal/bridge/log.go: the search in the kept records, by the words of internal/bridge/mem.go.
use altclaw.Common.{
  ℕ, Bool, List, [], ◌∷◌, ◌++◌, not, Bytes, codes, keep, if◌then◌else◌, ap, ◌≡◌, ◌==◌, min, length,
  take, reverse,
}
use altclaw.Memory.{is_nil, is_low, tokenize}
use altclaw.LogRing.{LogEntry, LogBuffer, new_log_buffer, recent}
use altclaw.LogRing.Refines.{handle_all, recent-handle_all}

-- The message and the values of the attributes.
unfoldable pub corpus : Bytes → List (Bytes × Bytes) → Bytes
corpus text [] = text
corpus text ((key, value) ∷ attrs) = corpus (text ++ (codes " " ++ value)) attrs

abbrev pub is_hit : (Bytes → Bytes) → List Bytes → LogEntry → Bool
is_hit to_lower words e = not (is_low words (tokenize to_lower (corpus e.msg e.attrs)))

-- The loop of `Search`, of all entries.
unfoldable pub hits : (Bytes → Bytes) → List Bytes → List LogEntry → List LogEntry
unfolding corpus
hits to_lower words es = if is_nil words then [] else keep (is_hit to_lower words) es

-- `Search`
unfoldable pub search_log : (Bytes → Bytes) → LogBuffer → Bytes → List LogEntry
unfolding hits
search_log to_lower b query = hits to_lower (tokenize to_lower query) (recent b 0)

-- After any records, in a buffer made with any size, the search lists, newest first, the kept records
-- whose words match the query's, and nothing for a query without words.
pub search_log-handle_all :
    (to_lower : Bytes → Bytes) (size : ℕ) (es : List LogEntry) (query : Bytes)
    → let kept = min (length es) (if size == 0 then 200 else size) in
      search_log to_lower (handle_all (new_log_buffer size) es) query
      ≡ hits to_lower (tokenize to_lower query) (take kept (reverse es))
unfolding search_log
search_log-handle_all to_lower size es query =
    ap (hits to_lower (tokenize to_lower query)) (recent-handle_all size 0 es)
