-- ===== src/Agent/Stream.antt =====
-- internal/agent/agent.go: the filter of a streamed response, which forwards what stands in md blocks.
pub mod Chunks
pub mod Examples
use altclaw.Common.{
  ℕ, Bool, true, false, List, [], ◌∷◌, ◌++◌, ◌&&◌, not, Bytes, codes, ◌==◌, leb, if◌then◌else◌,
  length, drop, all, has_prefix, text_eq, arith, ◌≡◌, refl, append_assoc, append-nil, ap, ◌∙◌, sym,
  ◌-◌,
}

-- `lineBuf`, `inMdBlock`, `inMemBlock`, and the calls of `OnChunk`.
pub record Filter : Type 0 where
  pub line_buf : Bytes
  pub in_md_block : Bool
  pub in_mem_block : Bool
  pub chunks : List Bytes

abbrev is_newline : ℕ → Bool
is_newline c = c == b'\n'

-- The complete lines of a text with their newlines, and what follows the last of them.
unfoldable pub lines : Bytes → Bytes → List Bytes × Bytes
lines line [] = ([], line)
lines line (c ∷ cs) =
    let (ls, rest) = lines [] cs in
    let more = lines (line ++ c ∷ []) cs in
    if is_newline c then ((line ++ c ∷ []) ∷ ls, rest) else more

abbrev has_suffix : Bytes → Bytes → Bool
has_suffix s p = leb (length p) (length s) && text_eq (drop (length s - length p) s) p

abbrev is_fence : Bytes → Bool
is_fence t = has_prefix t (codes "```")

-- Only backticks.
abbrev pub closes_block : Bytes → Bool
closes_block t = is_fence t && all (λ c. c == b'`') t

module _ (trim_space : Bytes → Bytes) where
  unfoldable pub on_line : Bytes → Filter → Filter
  on_line line f =
      let t = trim_space line in
      if f.in_mem_block
      then (if closes_block t then record f { in_mem_block = false } else f)
      else if not f.in_md_block
      then (if is_fence t && has_suffix t (codes "md")
          then record f { in_md_block = true }
          else if is_fence t && has_suffix t (codes "mem")
          then record f { in_mem_block = true }
          else f)
      else if closes_block t
      then record f { in_md_block = false }
      else record f { chunks = f.chunks ++ line ∷ [] }

  unfoldable pub on_lines : List Bytes → Filter → Filter
  unfolding on_line
  on_lines [] f = f
  on_lines (l ∷ ls) f = on_lines ls (on_line l f)

  -- The callback of `ChatStream`.
  unfoldable pub on_chunk : Bytes → Filter → Filter
  unfolding on_lines lines
  on_chunk chunk f =
      let (ls, rest) = lines [] (f.line_buf ++ chunk) in
      let f' = on_lines ls f in
      let left : Filter = record f' { line_buf = rest } in
      if left.in_md_block then record left { chunks = left.chunks ++ chunk ∷ [] } else left

  unfoldable pub on_chunks : List Bytes → Filter → Filter
  unfolding on_chunk
  on_chunks [] f = f
  on_chunks (c ∷ cs) f = on_chunks cs (on_chunk c f)
