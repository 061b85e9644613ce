-- ===== src/Agent.antt =====
-- internal/agent/agent.go: the conversation of an agent, and the parts of its loop.
pub mod Stream
pub mod History
pub mod Blocks
pub mod World
pub mod Turn
pub mod Gate
pub mod Send
pub mod Examples
use altclaw.Common.{
  ℕ, zero, suc, ◌+◌, ◌-◌, Bool, true, false, Option, none, some, List, [], ◌∷◌, ◌++◌, ◌&&◌, ◌||◌,
  not, Bytes, codes, ltb, leb, ◌==◌, if◌then◌else◌, length, keep, take, drop, has_prefix, contains,
}

-- The roles that the agent writes (internal/provider/provider.go has them as strings).
pub data Role : Type 0 where
  system user assistant : Role

-- `Files` are the names of the attachments; their contents go to the provider unread.
pub record Message : Type 0 where
  pub role : Role
  pub content : Bytes
  pub files : List Bytes

abbrev pub text_message : Role → Bytes → Message
text_message role content = record { role = role; content = content; files = [] }

abbrev pub results_tag : Bytes
results_tag = codes "[Execution Results]"

abbrev pub exec_fence : Bytes
exec_fence = codes "```exec"

abbrev is_user : Role → Bool
is_user user = true
is_user _ = false

abbrev is_assistant : Role → Bool
is_assistant assistant = true
is_assistant _ = false

unfoldable pub is_results : Message → Bool
is_results m = is_user m.role && has_prefix m.content results_tag

unfoldable pub is_code : Message → Bool
is_code m = is_assistant m.role && contains m.content exec_fence

-- What both loops over earlier messages skip: execution feedback and code responses.
unfoldable pub is_noise : Message → Bool
unfolding is_results is_code
is_noise m = is_results m || is_code m

-- `compactMessages`
unfoldable pub compact_messages : List Message → List Message
compact_messages ms = keep (λ m. not (is_noise m)) ms

-- `priorClean`: the messages of earlier turns that the provider still sees.
unfoldable pub prior_window : ℕ → List Message → List Message
unfolding compact_messages
prior_window max_prior ms =
    let clean = compact_messages ms in
    if ltb max_prior (length clean) then drop (length clean - max_prior) clean else clean

-- "→" and "—" in UTF-8
abbrev pub arrow : Bytes
arrow = codes " " ++ (0xe2 ∷ 0x86 ∷ 0x92 ∷ codes " ")

abbrev pub em_dash : Bytes
em_dash = 0xe2 ∷ 0x80 ∷ 0x94 ∷ []

-- `truncate`; "…" is three bytes of UTF-8
abbrev pub ellipsis : Bytes
ellipsis = 0xe2 ∷ 0x80 ∷ 0xa6 ∷ []

unfoldable pub truncate : Bytes → ℕ → Bytes
truncate s n = if leb (length s) n then s else take n s ++ ellipsis

-- `ledgerPreview`
unfoldable pub preview_limit : ℕ → ℕ
preview_limit iteration = if leb 10 iteration then 200 else if leb 5 iteration then 400 else 800

unfoldable pub ledger_preview : Bytes → ℕ → Bytes
unfolding preview_limit
ledger_preview result iteration =
    if leb (length result) 3000
    then result
    else take (preview_limit iteration) result ++ (codes "\n" ++ (ellipsis ++ codes "(truncated)"))
