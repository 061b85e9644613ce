-- ===== src/Agent/Send/Context.antt =====
-- Which earlier runs a turn quotes to the provider.
use altclaw.Common.{
  ℕ, zero, suc, ◌≤◌, ◌≡◌, ◌≢◌, false, List, [], ◌∷◌, arith, Bytes, codes, length, All, any, text_eq,
  text_eq_iff, has_prefix, Bool-cases, inl, inr,
}
use altclaw.Agent.World.{HistoryRow}
use altclaw.Agent.Send.{is_skipped, context_rows}

-- A row that is worth quoting.
abbrev pub IsQuotable : Bytes → HistoryRow → Type 0
IsQuotable turn_id h = (h.turn_id ≢ turn_id) × (has_prefix h.result (codes "Error:") ≡ false)

abbrev pub IsNew : List Bytes → HistoryRow → Type 0
IsNew seen h = any (text_eq h.code) seen ≡ false

-- The rows run different codes.
abbrev pub HasDistinctCodes : List HistoryRow → Type 0
HasDistinctCodes [] = Unit
HasDistinctCodes (h ∷ hs) = All (λ k. text_eq k.code h.code ≡ false) hs × HasDistinctCodes hs

taken-IsQuotable :
    (turn_id : Bytes) (seen : List Bytes) (h : HistoryRow)
    → is_skipped turn_id seen h ≡ false
    → IsQuotable turn_id h × IsNew seen h
taken-IsQuotable turn_id seen h e =
    ((ground (arith, text_eq_iff h.turn_id turn_id), ground arith), ground arith)

context_rows-length :
    (room : ℕ) (turn_id : Bytes) (seen : List Bytes) (hs : List HistoryRow)
    → length (context_rows room turn_id seen hs) ≤ room
unfolding context_rows
context_rows-length zero turn_id seen hs = omega arith
context_rows-length (suc room) turn_id seen [] = omega arith
context_rows-length (suc room) turn_id seen (h ∷ hs) =
    elim (Bool-cases (is_skipped turn_id seen h)) [
      | inl e ↦ rw e (context_rows-length (suc room) turn_id seen hs)
      | inr e ↦ rw e (omega (arith, context_rows-length room turn_id (h.code ∷ seen) hs))
    ]

module _ (turn_id : Bytes) where
  All-IsNew_tail :
      (c : Bytes) (seen : List Bytes) (hs : List HistoryRow)
      → All (IsNew (c ∷ seen)) hs
      → All (IsNew seen) hs × All (λ k. text_eq k.code c ≡ false) hs
  All-IsNew_tail c seen [] _ = (tt, tt)
  All-IsNew_tail c seen (h ∷ hs) (n, ns) =
      let (later, other) = All-IsNew_tail c seen hs ns in
      ((ground arith, later), (ground arith, other))

  context_rows-IsNew :
      (room : ℕ) (seen : List Bytes) (hs : List HistoryRow)
      → All (IsQuotable turn_id) (context_rows room turn_id seen hs)
        × All (IsNew seen) (context_rows room turn_id seen hs)
        × HasDistinctCodes (context_rows room turn_id seen hs)
  unfolding context_rows
  context_rows-IsNew zero seen hs = (tt, tt, tt)
  context_rows-IsNew (suc room) seen [] = (tt, tt, tt)
  context_rows-IsNew (suc room) seen (h ∷ hs) = elim (Bool-cases (is_skipped turn_id seen h)) [
    | inl e ↦ rw e (context_rows-IsNew (suc room) seen hs)
    | inr e ↦
        let (quotable, new) = taken-IsQuotable turn_id seen h e in
        let (qs, ns, distinct) = context_rows-IsNew room (h.code ∷ seen) hs in
        let (later, other) =
          All-IsNew_tail h.code seen (context_rows room turn_id (h.code ∷ seen) hs) ns in
        rw e ((quotable, qs), (new, later), (other, distinct))
  ]

-- The rows quoted to the provider are at most three; each is from another turn and is no error, and
-- no two of them run the same code.
pub context_rows_sound :
    (turn_id : Bytes) (rows : List HistoryRow)
    → let quoted = context_rows 3 turn_id [] rows in
      (length quoted ≤ 3) × All (IsQuotable turn_id) quoted × HasDistinctCodes quoted
context_rows_sound turn_id rows =
    let (quotable, _, distinct) = context_rows-IsNew turn_id 3 [] rows in
    (context_rows-length 3 turn_id [] rows, quotable, distinct)
