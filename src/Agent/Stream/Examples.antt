-- ===== src/Agent/Stream/Examples.antt =====
-- Tests and examples of the streaming filter.
use altclaw.Common.{false, List, [], ◌∷◌, Bytes, codes, has_prefix, text_eq, ◌≡◌, refl}
use altclaw.Agent.Stream.{Filter, on_chunk, on_chunks}
use altclaw.Agent.Stream.Chunks.{SameBlocks, concat, on_chunks-concat}

-- Cuts a newline at the end.
abbrev trim : Bytes → Bytes
trim [] = []
trim (c ∷ []) = []
trim (c ∷ d ∷ s) = c ∷ trim (d ∷ s)

abbrev fresh : Filter
fresh = record { line_buf = []; in_md_block = false; in_mem_block = false; chunks = [] }

abbrev response : List Bytes
response = codes "text\n``" ∷ codes "`md\nHi\n" ∷ codes "```\nmore\n" ∷ []

-- The chunk that opens the block is forwarded with the fence, and its whole line once more.
forwarded : (on_chunks trim response fresh).chunks ≡ codes "Hi\n" ∷ codes "`md\nHi\n" ∷ []
unfolding on_chunks text_eq has_prefix
forwarded = refl

on_chunks-concat_example :
    SameBlocks (on_chunks trim response fresh) (on_chunk trim (concat response) fresh)
on_chunks-concat_example = on_chunks-concat trim response fresh refl
