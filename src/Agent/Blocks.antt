-- ===== src/Agent/Blocks.antt =====
-- internal/agent/agent.go: `extractBlocks` and the call ledger. The regular expressions are the
-- package regexp's, so their matches are a parameter.
use altclaw.Common.{
  ℕ, ◌+◌, Bool, true, false, Option, none, some, List, [], ◌∷◌, ◌++◌, ◌||◌, not, Bytes, codes, ltb,
  if◌then◌else◌, text_eq, has_prefix, length, take, any, index, last_index, drop,
}

-- What `codeBlockRe`, `memBlockRe`, `callSigRe` and `instanceCallRe` find in a text, and
-- `strings.TrimSpace`.
pub record Patterns : Type 0 where
  pub exec_matches : Bytes → List Bytes
  pub mem_matches : Bytes → List (Bytes × Bytes)
  pub strip_mem : Bytes → Bytes
  pub call_matches : Bytes → List (Bytes × Bytes)
  pub instance_matches : Bytes → List (Bytes × Bytes × Bytes)
  pub replace_blocks : (Bytes → Bytes) → Bytes → Bytes
  pub block_code : Bytes → Option Bytes
  pub trim_space : Bytes → Bytes

pub record MemEntry : Type 0 where
  pub kind : Bytes
  pub content : Bytes

pub record Blocks : Type 0 where
  pub md : Bytes
  pub code : List Bytes
  pub mem : List MemEntry

abbrev is_empty : Bytes → Bool
is_empty [] = true
is_empty _ = false

module _ (re : Patterns) where
  open re use {exec_matches, mem_matches, strip_mem, call_matches, instance_matches, trim_space}

  -- The code blocks, without those that are blank.
  code_blocks : List Bytes → List Bytes
  code_blocks [] = []
  code_blocks (m ∷ ms) =
      let code = trim_space m in if is_empty code then code_blocks ms else code ∷ code_blocks ms

  mem_kind : Bytes → Bytes
  mem_kind k =
      if text_eq k (codes "core") || text_eq k (codes "learned") || text_eq k (codes "note")
      then k
      else codes "learned"

  mem_blocks : List (Bytes × Bytes) → List MemEntry
  unfolding mem_kind
  mem_blocks [] = []
  mem_blocks ((kind, body) ∷ ms) =
      let content = trim_space body in
      let rest = mem_blocks ms in
      if is_empty content
      then rest
      else record { kind = mem_kind (trim_space kind); content = content } ∷ rest

  -- The text between the opening line and the last fence of what is left.
  md_block : Bytes → Bytes
  md_block text =
      let trimmed = trim_space (strip_mem text) in
      if has_prefix trimmed (codes "```md")
      then after_line (index trimmed (codes "\n")) trimmed
      else []
    where
      up_to : Option ℕ → Bytes → Bytes
      up_to none content = content
      up_to (some end) content = take end content

      after_line : Option ℕ → Bytes → Bytes
      after_line none trimmed = []
      after_line (some i) trimmed =
          let content = drop (i + 1) trimmed in
          trim_space (up_to (last_index content (codes "```")) content)

  unfoldable pub extract_blocks : Bytes → Blocks
  unfolding code_blocks mem_blocks md_block
  extract_blocks text = record {
    md = md_block text;
    code = code_blocks (exec_matches text);
    mem = mem_blocks (mem_matches text);
  }

  -- `extractCallSignatures`: the first pass keeps each signature once.
  known_calls : List Bytes → List (Bytes × Bytes) → List Bytes
  known_calls sigs [] = sigs
  known_calls sigs ((name, args) ∷ ms) =
      let sig = name ++ (codes "(" ++ (args ++ codes ")")) in
      known_calls (if any (text_eq sig) sigs then sigs else sigs ++ sig ∷ []) ms

  is_noise_object : Bytes → Bool
  is_noise_object obj = any (text_eq obj) (
      codes "console"
      ∷ codes "JSON"
      ∷ codes "Math"
      ∷ codes "Array"
      ∷ codes "Object"
      ∷ codes "String"
      ∷ codes "Date"
      ∷ codes "Promise"
      ∷ codes "m"
      ∷ codes "e"
      ∷ [])

  instance_calls : List Bytes → List (Bytes × Bytes × Bytes) → List Bytes
  unfolding is_noise_object
  instance_calls sigs [] = sigs
  instance_calls sigs ((obj, name, args) ∷ ms) =
      let sig = obj ++ (codes "." ++ (name ++ (codes "(" ++ (args ++ codes ")")))) in
      instance_calls
        (if is_noise_object obj || any (text_eq sig) sigs || not (ltb (length sigs) 7)
          then sigs
          else sigs ++ sig ∷ [])
        ms

  join_comma : List Bytes → Bytes
  join_comma [] = []
  join_comma (s ∷ []) = s
  join_comma (s ∷ t ∷ ss) = s ++ (codes ", " ++ join_comma (t ∷ ss))

  abbrev no_calls : List Bytes → Bool
  no_calls [] = true
  no_calls _ = false

  pub call_list : Bytes → List Bytes
  unfolding known_calls instance_calls
  call_list code =
      let sigs = known_calls [] (call_matches code) in
      if ltb (length sigs) 5 then instance_calls sigs (instance_matches code) else sigs

  unfoldable pub extract_call_signatures : Bytes → Bytes
  unfolding call_list join_comma
  extract_call_signatures code =
      let sigs = call_list code in if no_calls sigs then codes "(script)" else join_comma sigs

  -- `compactCode`: each code block gives way to the calls that it made.
  omitted : Option Bytes → Bytes
  omitted none = codes "```exec\n[code omitted]\n```"
  omitted (some code) =
      let sigs = extract_call_signatures code in
      if text_eq sigs (codes "(script)")
      then codes "```exec\n[code omitted]\n```"
      else codes "```exec\n// Calls: " ++ (sigs ++ codes "\n[code omitted]\n```")

  unfoldable pub compact_code : Bytes → Bytes
  unfolding omitted
  compact_code content = re.replace_blocks (λ block. omitted (re.block_code block)) content
