-- ===== src/ConnMgr/Sse.antt =====
-- internal/connmgr/connmgr.go: the events that `sseProtocol.Read` takes from the lines of a body.
use altclaw.Common.{
  Bool, Option, none, some, List, [], ◌∷◌, ◌++◌, Bytes, codes, ◌==◌, if◌then◌else◌, length, drop,
  has_prefix, map, keep, ◌≢◌, arith, ◌≡◌, refl, All, append_assoc,
}

-- `strings.TrimPrefix`
abbrev pub trim_prefix : Bytes → Bytes → Bytes
trim_prefix s p = if has_prefix s p then drop (length p) s else s

-- The text without a newline at its end.
unfoldable pub trim_newline : Bytes → Bytes
trim_newline [] = []
trim_newline (c ∷ []) = if c == b'\n' then [] else c ∷ []
trim_newline (c ∷ d ∷ s) = c ∷ trim_newline (d ∷ s)

abbrev is_data : Bytes → Bool
is_data line = has_prefix line (codes "data:")

abbrev payload : Bytes → Bytes
payload line = trim_prefix (trim_prefix line (codes "data:")) (codes " ")

-- What was read of an event, or none if it has no data yet.
abbrev pub add_line : Option Bytes → Bytes → Option Bytes
add_line none p = some p
add_line (some d) p = some (d ++ b'\n' ∷ p)

-- An event and the lines that are left, or the end of the file.
unfoldable pub sse_read : Option Bytes → List Bytes → Option (Bytes × List Bytes)
unfolding trim_newline
sse_read found [] = none
sse_read none ([] ∷ lines) = sse_read none lines
sse_read (some d) ([] ∷ lines) = some (trim_newline d, lines)
sse_read found ((c ∷ cs) ∷ lines) =
    sse_read (if is_data (c ∷ cs) then add_line found (payload (c ∷ cs)) else found) lines

-- The lines with a newline between two of them.
unfoldable pub join : Bytes → List Bytes → Bytes
join l [] = l
join l (k ∷ ks) = l ++ (b'\n' ∷ join k ks)

-- The payloads of an event, as its lines give them.
abbrev pub payloads : List Bytes → List Bytes
payloads lines = map payload (keep is_data lines)

-- An event without data is none: the next one is read.
abbrev pub deliver : List Bytes → List Bytes → Option (Bytes × List Bytes)
deliver [] rest = sse_read none rest
deliver (p ∷ ps) rest = some (trim_newline (join p ps), rest)

abbrev pub IsLine : Bytes → Type 0
IsLine line = length line ≢ 0

join-append : (d k : Bytes) (ks : List Bytes) → join (d ++ b'\n' ∷ k) ks ≡ d ++ (b'\n' ∷ join k ks)
unfolding join
join-append d k [] = refl
join-append d k (l ∷ ls) = append_assoc d (b'\n' ∷ k) (b'\n' ∷ join l ls)

sse_read-more :
    (d : Bytes) (lines rest : List Bytes)
    → All IsLine lines
    → sse_read (some d) (lines ++ ([] ∷ rest)) ≡ some (trim_newline (join d (payloads lines)), rest)
unfolding sse_read join
sse_read-more d [] rest h = refl
sse_read-more d ([] ∷ lines) rest h = absurd (h.0 refl)
sse_read-more d ((c ∷ cs) ∷ lines) rest h = ground (
  arith,
  sse_read-more (d ++ b'\n' ∷ payload (c ∷ cs)) lines rest h.1,
  sse_read-more d lines rest h.1,
  join-append d (payload (c ∷ cs)) (payloads lines),
)

-- Of the lines before an empty one, `Read` returns the payloads of those that start with "data:",
-- with a newline between two of them and without a newline at the end, and leaves the lines after
-- it. If there is no such line it reads on.
pub sse_read-deliver :
    (lines rest : List Bytes)
    → All IsLine lines
    → sse_read none (lines ++ ([] ∷ rest)) ≡ deliver (payloads lines) rest
unfolding sse_read
sse_read-deliver [] rest h = refl
sse_read-deliver ([] ∷ lines) rest h = absurd (h.0 refl)
sse_read-deliver ((c ∷ cs) ∷ lines) rest h =
    ground (arith, sse_read-more (payload (c ∷ cs)) lines rest h.1, sse_read-deliver lines rest h.1)
