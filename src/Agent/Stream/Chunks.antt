-- ===== src/Agent/Stream/Chunks.antt =====
-- How the streaming filter depends on the chunks.
use altclaw.Common.{
  ℕ, Bool, true, false, List, [], ◌∷◌, ◌++◌, ◌&&◌, not, Bytes, all, arith, ◌≡◌, refl, append_assoc,
  append-nil, ap, ◌∙◌, sym,
}
use altclaw.Agent.Stream.{
  Filter, is_newline, lines, closes_block, on_line, on_lines, on_chunk, on_chunks,
}

abbrev pub concat : List Bytes → Bytes
concat [] = []
concat (c ∷ cs) = c ++ concat cs

-- The blocks that the filter is in, without what it forwarded.
abbrev pub SameBlocks : Filter → Filter → Type 0
SameBlocks f g =
    (f.line_buf ≡ g.line_buf) × (f.in_md_block ≡ g.in_md_block) × (f.in_mem_block ≡ g.in_mem_block)

abbrev pub no_newline : Bytes → Bool
no_newline s = all (λ c. not (is_newline c)) s

lines-line : (x acc t : Bytes) → no_newline acc ≡ true → lines x (acc ++ t) ≡ lines (x ++ acc) t
unfolding lines
lines-line x [] t h = ap (λ y. lines y t) (sym (append-nil x))
lines-line x (c ∷ acc) t h =
    ground (arith, lines-line (x ++ c ∷ []) acc t, append_assoc x (c ∷ []) acc)

no_newline-snoc :
    (x : Bytes) (c : ℕ) → no_newline (x ++ c ∷ []) ≡ no_newline x && not (is_newline c)
no_newline-snoc [] c = ground arith
no_newline-snoc (d ∷ x) c = ground (arith, no_newline-snoc x c)

rest-no_newline : (x s : Bytes) → no_newline x ≡ true → no_newline (lines x s).1 ≡ true
unfolding lines
rest-no_newline x [] h = h
rest-no_newline x (c ∷ cs) h =
    ground
      (arith, rest-no_newline [] cs refl, rest-no_newline (x ++ c ∷ []) cs, no_newline-snoc x c)

lines-append :
    (x s t : Bytes)
    → let (ls, rest) = lines x s in
      let (ms, last) = lines rest t in lines x (s ++ t) ≡ (ls ++ ms, last)
unfolding lines
lines-append x [] t = refl
lines-append x (c ∷ cs) t = ground (arith, lines-append [] cs t, lines-append (x ++ c ∷ []) cs t)

SameBlocks-trans : (f g h : Filter) → SameBlocks f g → SameBlocks g h → SameBlocks f h
SameBlocks-trans f g h p q = (p.0 ∙ q.0, p.1 ∙ q.1, p.2 ∙ q.2)

module _ (trim_space : Bytes → Bytes) where
  on_line-SameBlocks :
      (l : Bytes) (f g : Filter)
      → SameBlocks f g
      → SameBlocks (on_line trim_space l f) (on_line trim_space l g)
  unfolding on_line
  on_line-SameBlocks l f g h = (ground (arith, h), ground (arith, h), ground (arith, h))

  on_lines-SameBlocks :
      (ls : List Bytes) (f g : Filter)
      → (f.in_md_block ≡ g.in_md_block) × (f.in_mem_block ≡ g.in_mem_block)
      → let f' = on_lines trim_space ls f in
        let g' = on_lines trim_space ls g in
        (f'.in_md_block ≡ g'.in_md_block) × (f'.in_mem_block ≡ g'.in_mem_block)
  unfolding on_lines on_line
  on_lines-SameBlocks [] f g h = h
  on_lines-SameBlocks (l ∷ ls) f g h =
      on_lines-SameBlocks ls (on_line trim_space l f) (on_line trim_space l g)
        (ground (arith, h), ground (arith, h))

  on_lines-append :
      (ls ms : List Bytes) (f : Filter)
      → on_lines trim_space (ls ++ ms) f ≡ on_lines trim_space ms (on_lines trim_space ls f)
  unfolding on_lines
  on_lines-append [] ms f = refl
  on_lines-append (l ∷ ls) ms f = on_lines-append ls ms (on_line trim_space l f)

  on_chunk-append :
      (s t : Bytes) (f : Filter)
      → no_newline f.line_buf ≡ true
      → SameBlocks
          (on_chunk trim_space t (on_chunk trim_space s f))
          (on_chunk trim_space (s ++ t) f)
  unfolding on_chunk
  on_chunk-append s t f h =
      let (ls, rest) = lines [] (f.line_buf ++ s) in
      let (ms, last) = lines rest t in
      let f1 = on_chunk trim_space s f in
      let again = lines-line [] rest t (rest-no_newline [] (f.line_buf ++ s) refl) in
      let whole : lines [] (f.line_buf ++ (s ++ t)) ≡ (ls ++ ms, last) =
        ap (lines []) (sym (append_assoc f.line_buf s t)) ∙ lines-append [] (f.line_buf ++ s) t in
      let buf : f1.line_buf ≡ rest = ground arith in
      ground (
        arith,
        again,
        whole,
        buf,
        on_lines-append ls ms f,
        on_lines-SameBlocks ms f1 (on_lines trim_space ls f) (ground arith, ground arith),
      )

  on_chunk-no_newline :
      (s : Bytes) (f : Filter) → no_newline (on_chunk trim_space s f).line_buf ≡ true
  unfolding on_chunk
  on_chunk-no_newline s f = ground (arith, rest-no_newline [] (f.line_buf ++ s) refl)

  no_chunk : (f : Filter) → no_newline f.line_buf ≡ true → SameBlocks f (on_chunk trim_space [] f)
  unfolding on_chunk on_lines lines
  no_chunk f h = let whole = lines-line [] f.line_buf [] h in ground (arith, whole)

  -- However a response is cut into chunks, the filter ends in the same block and with the same
  -- unfinished line.
  pub on_chunks-concat :
      (cs : List Bytes) (f : Filter)
      → no_newline f.line_buf ≡ true
      → SameBlocks (on_chunks trim_space cs f) (on_chunk trim_space (concat cs) f)
  unfolding on_chunks
  on_chunks-concat [] f h = no_chunk f h
  on_chunks-concat (c ∷ cs) f h =
      let g = on_chunk trim_space c f in
      SameBlocks-trans (on_chunks trim_space cs g) (on_chunk trim_space (concat cs) g)
        (on_chunk trim_space (c ++ concat cs) f) (on_chunks-concat cs g (on_chunk-no_newline c f))
        (on_chunk-append c (concat cs) f h)

  -- Within an md block a chunk that is a whole line is forwarded twice, unless the line closes the
  -- block.
  pub on_chunk-doubles :
      (l : Bytes) (f : Filter)
      → f.in_md_block ≡ true
      → f.in_mem_block ≡ false
      → f.line_buf ≡ []
      → no_newline l ≡ true
      → let line = l ++ b'\n' ∷ [] in
        closes_block (trim_space line) ≡ false
        → (on_chunk trim_space line f).chunks ≡ f.chunks ++ line ∷ line ∷ []
  unfolding on_chunk on_lines on_line lines
  on_chunk-doubles l f md mem buf h stays =
      let line = l ++ b'\n' ∷ [] in
      let whole : lines [] line ≡ (line ∷ [], []) = lines-line [] l (b'\n' ∷ []) h in
      ground (arith, md, mem, buf, stays, whole, append_assoc f.chunks (line ∷ []) (line ∷ []))
