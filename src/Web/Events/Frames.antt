-- ===== src/Web/Events/Frames.antt =====
-- The stream of the hub, read by the program's own client for such streams.
use altclaw.Common.{
  ℕ, zero, suc, ◌+◌, ◌≤◌, ◌<◌, ltb, length-append, false, Option, none, some, List, [], ◌∷◌, ◌++◌,
  ◌||◌, Bytes, codes, ◌==◌, if◌then◌else◌, length, has_prefix, All, append_assoc, append-nil, arith,
  ◌≡◌, refl, ap, ◌∙◌,
}
use altclaw.ConnMgr.Sse.{sse_read, trim_newline}
use altclaw.Web.Events.{frame}

-- A byte that ends no line.
abbrev pub IsInner : ℕ → Type 0
IsInner c = (c == 10 || c == 13) ≡ false

abbrev pub IsOneLine : Bytes → Type 0
IsOneLine = All IsInner

-- The text without a carriage return at its end.
unfoldable pub drop_return : Bytes → Bytes
drop_return [] = []
drop_return (c ∷ []) = if c == 13 then [] else c ∷ []
drop_return (c ∷ d ∷ s) = c ∷ drop_return (d ∷ s)

-- The size of the buffer that `Connect` gives the scanner: a line and its end have to fit in.
abbrev pub max_token : ℕ
max_token = 1048576

-- The lines that the package bufio scans, with what was read of the first one. A buffer that is full
-- without the end of a line ends them: `Read` returns the scanner's error, and no more data.
unfoldable pub scan_lines : Bytes → Bytes → List Bytes
unfolding drop_return
scan_lines [] [] = []
scan_lines (a ∷ line) [] = drop_return (a ∷ line) ∷ []
scan_lines line (c ∷ s) =
    let rest = scan_lines [] s in
    let more = scan_lines (line ++ c ∷ []) s in
    if c == 10
    then drop_return line ∷ rest
    else if ltb (length line + 1) max_token
    then more
    else []

abbrev then_read : Option (Bytes × List Bytes) → (List Bytes → List Bytes) → List Bytes
then_read none next = []
then_read (some (p, rest)) next = p ∷ next rest

-- What `Read` returns, call by call, up to the end of the lines.
unfoldable pub read_all : ℕ → List Bytes → List Bytes
read_all zero lines = []
read_all (suc n) lines = then_read (sse_read none lines) (read_all n)

abbrev pub stream : List Bytes → Bytes
stream [] = []
stream (p ∷ ps) = frame p ++ stream ps

trim_newline-IsOneLine : (p : Bytes) → IsOneLine p → trim_newline p ≡ p
unfolding trim_newline
trim_newline-IsOneLine [] h = refl
trim_newline-IsOneLine (c ∷ []) h = ground (arith, h.0)
trim_newline-IsOneLine (c ∷ d ∷ s) h = ap (λ t. c ∷ t) (trim_newline-IsOneLine (d ∷ s) h.1)

drop_return-IsOneLine : (p : Bytes) → IsOneLine p → drop_return p ≡ p
unfolding drop_return
drop_return-IsOneLine [] h = refl
drop_return-IsOneLine (c ∷ []) h = ground (arith, h.0)
drop_return-IsOneLine (c ∷ d ∷ s) h = ap (λ t. c ∷ t) (drop_return-IsOneLine (d ∷ s) h.1)

scan_lines-line :
    (line p s : Bytes)
    → IsOneLine p
    → length line + length p < max_token
    → scan_lines line (p ++ (10 ∷ s)) ≡ drop_return (line ++ p) ∷ scan_lines [] s
unfolding scan_lines
scan_lines-line line [] s h lt = rw (append-nil line)
scan_lines-line line (c ∷ p) s h lt = ground (
  arith,
  h.0,
  scan_lines-line (line ++ c ∷ []) p s h.1 (omega (arith, lt, length-append line (c ∷ []))),
  append_assoc line (c ∷ []) p,
)

-- A frame is the line of its data and an empty line.
scan_lines-frame :
    (p s : Bytes)
    → IsOneLine p
    → length p + 6 < max_token
    → scan_lines [] (frame p ++ s) ≡ (codes "data: " ++ p) ∷ ([] ∷ scan_lines [] s)
unfolding scan_lines drop_return
scan_lines-frame p s h lt =
    let one : IsOneLine (codes "data: " ++ p) = (refl, (refl, (refl, (refl, (refl, (refl, h)))))) in
    ap (scan_lines []) (ap (λ t. codes "data: " ++ t) (append_assoc p (10 ∷ 10 ∷ []) s))
    ∙ scan_lines-line [] (codes "data: " ++ p) (10 ∷ s) one
        (omega (arith, lt, length-append (codes "data: ") p))
    ∙ ap (λ l. l ∷ ([] ∷ scan_lines [] s)) (drop_return-IsOneLine (codes "data: " ++ p) one)

sse_read-frame :
    (p : Bytes) (rest : List Bytes)
    → IsOneLine p
    → sse_read none ((codes "data: " ++ p) ∷ ([] ∷ rest)) ≡ some (p, rest)
unfolding sse_read has_prefix
sse_read-frame p rest h = ap (λ q. some (q, rest)) (trim_newline-IsOneLine p h)

read_all-nil : (n : ℕ) → read_all n (scan_lines [] []) ≡ []
unfolding read_all scan_lines sse_read
read_all-nil zero = refl
read_all-nil (suc n) = refl

-- The data fit in a line of the stream, after "data: ".
abbrev pub Fits : Bytes → Type 0
Fits p = length p + 6 < 1048576

-- From the stream of the frames of data that have no line ends and less than 1,048,570 bytes each,
-- the `Read` of the connection manager returns exactly these data, in order, one by one.
pub read_all-stream :
    (n : ℕ) (ps : List Bytes)
    → length ps ≤ n
    → All IsOneLine ps
    → All Fits ps
    → read_all n (scan_lines [] (stream ps)) ≡ ps
unfolding read_all
read_all-stream n [] le h fits = read_all-nil n
read_all-stream zero (p ∷ ps) le h fits = absurd (omega arith)
read_all-stream (suc n) (p ∷ ps) le h fits =
    ap (λ lines. then_read (sse_read none lines) (read_all n))
      (scan_lines-frame p (stream ps) h.0 fits.0)
    ∙ ap (λ o. then_read o (read_all n)) (sse_read-frame p (scan_lines [] (stream ps)) h.0)
    ∙ ap (λ qs. p ∷ qs) (read_all-stream n ps (omega arith) h.1 fits.1)
