-- ===== src/Memory.antt =====
-- internal/bridge/mem.go: the search in the memories of the workspace and the user.
pub mod Overlap
pub mod Examples
use altclaw.Common.{
  ℕ, suc, ◌*◌, Bool, true, false, Option, none, some, List, [], ◌∷◌, ◌++◌, ◌&&◌, ◌||◌, not, Bytes,
  text_eq, leb, ltb, ◌==◌, any, length, if◌then◌else◌,
}

-- A row of `config.Memory`, with the text of its age.
pub record Memory : Type 0 where
  pub id : ℕ
  pub kind : Bytes
  pub content : Bytes
  pub age : Bytes

-- A result, and if it is marked with the scope of the user.
abbrev pub Result : Type 0
Result = Memory × Bool

abbrev pub is_word_char : ℕ → Bool
is_word_char c = leb b'a' c && leb c b'z' || leb b'0' c && leb c b'9'

abbrev pub and_field : Bytes → List Bytes → List Bytes
and_field [] rest = rest
and_field (c ∷ w) rest = (c ∷ w) ∷ rest

-- `strings.FieldsFunc`, with what was read of the first field. A character of more than one byte has
-- none that is a letter or a digit.
unfoldable pub fields : Bytes → Bytes → List Bytes
fields word [] = and_field word []
fields word (c ∷ s) =
    let more = fields (word ++ c ∷ []) s in
    let next = fields [] s in if is_word_char c then more else and_field word next

abbrev pub is_seen : Bytes → List Bytes → Bool
is_seen w ws = any (text_eq w) ws

-- The fields of more than one character, without those that were seen.
unfoldable pub unseen : List Bytes → List Bytes → List Bytes
unseen seen [] = []
unseen seen (w ∷ ws) =
    let taken = unseen (w ∷ seen) ws in
    let rest = unseen seen ws in
    if ltb 1 (length w) && not (is_seen w seen) then w ∷ taken else rest

-- `tokenize`, given `strings.ToLower`
unfoldable pub tokenize : (Bytes → Bytes) → Bytes → List Bytes
unfolding fields unseen
tokenize to_lower s = if text_eq s [] then [] else unseen [] (fields [] (to_lower s))

-- How many words of the query the corpus has.
unfoldable pub matches : List Bytes → List Bytes → ℕ
matches [] corpus = 0
matches (q ∷ query) corpus =
    let rest = matches query corpus in if is_seen q corpus then suc rest else rest

-- `overlapScore(query, corpus) < 0.1`, where the score is m / √(q c), or 0 if m is 0.
unfoldable pub is_low : List Bytes → List Bytes → Bool
unfolding matches
is_low query corpus =
    let m = matches query corpus in m == 0 || ltb (100 * (m * m)) (length query * length corpus)

abbrev pub is_nil : List Bytes → Bool
is_nil [] = true
is_nil (_ ∷ _) = false

module _ (to_lower : Bytes → Bytes) where
  abbrev pub is_left_out : List Bytes → Memory → Bool
  is_left_out query e = not (is_nil query) && is_low query (tokenize to_lower e.content)

  unfoldable pub add_entries : List Bytes → Bool → List Memory → List Result
  add_entries query is_user [] = []
  add_entries query is_user (e ∷ es) =
      let rest = add_entries query is_user es in
      if is_left_out query e then rest else (e, is_user) ∷ rest

  -- `mergeEntries`, of the rows that the store lists for the workspace and for the user.
  unfoldable pub merge_entries : Bytes → Bytes → List Memory → List Memory → List Result
  unfolding add_entries
  merge_entries workspace query ws_entries user_entries =
      let words = tokenize to_lower query in
      (if text_eq workspace [] then [] else add_entries words false ws_entries)
      ++ add_entries words true user_entries

abbrev marked : Bool → List Memory → List Result
marked is_user [] = []
marked is_user (e ∷ es) = (e, is_user) ∷ marked is_user es

-- `mergeEntriesByKind`, of the rows of the kind, whose ages it leaves out.
unfoldable pub merge_entries_by_kind : Bytes → List Memory → List Memory → List Result
merge_entries_by_kind workspace ws_entries user_entries =
    (if text_eq workspace [] then [] else marked false ws_entries) ++ marked true user_entries
