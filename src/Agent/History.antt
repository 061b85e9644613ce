-- ===== src/Agent/History.antt =====
-- What the windows over the conversation keep, and the bounds of what is quoted back.
use altclaw.Common.{
  ℕ, ◌-◌, ◌≤◌, ◌≡◌, refl, true, List, [], ◌∷◌, ◌++◌, not, arith, Bytes, ltb, length, take, drop,
  All, All-keep, All-drop, keep-append, length-append, length-take, length-drop, Bool-cases, inl,
  inr, codes, min, take-append-drop, ltb→lt,
}
use altclaw.Agent.{
  Message, is_noise, compact_messages, prior_window, ledger_preview, preview_limit, ellipsis,
}

abbrev pub IsClean : Message → Type 0
IsClean m = not (is_noise m) ≡ true

pub compact_messages-IsClean : (ms : List Message) → All IsClean (compact_messages ms)
unfolding compact_messages
compact_messages-IsClean ms = All-keep (λ m. not (is_noise m)) ms

pub compact_messages-append :
    (ms ns : List Message)
    → compact_messages (ms ++ ns) ≡ compact_messages ms ++ compact_messages ns
unfolding compact_messages
compact_messages-append ms ns = keep-append _ ms ns

compact_messages_of_IsClean : (ms : List Message) → All IsClean ms → compact_messages ms ≡ ms
unfolding compact_messages
compact_messages_of_IsClean [] _ = refl
compact_messages_of_IsClean (m ∷ ms) (c, cs) = ground (arith, compact_messages_of_IsClean ms cs)

drop_of_append : (xs ys : List Message) → drop (length xs) (xs ++ ys) ≡ ys
drop_of_append [] ys = refl
drop_of_append (x ∷ xs) ys = drop_of_append xs ys

prior_window-IsClean : (k : ℕ) (ms : List Message) → All IsClean (prior_window k ms)
unfolding prior_window
prior_window-IsClean k ms = elim (Bool-cases (ltb k (length (compact_messages ms)))) [
  | inl e ↦ rw e (All-drop IsClean _ (compact_messages ms) (compact_messages-IsClean ms))
  | inr e ↦ rw e (compact_messages-IsClean ms)
]

-- The provider sees a suffix of the earlier conversation with execution feedback and code
-- responses taken out: `k` messages, or all if there are fewer, none of them such noise.
pub prior_window-suffix :
    (k : ℕ) (ms : List Message)
    → (older : List Message) × (older ++ prior_window k ms ≡ compact_messages ms)
      × (length (prior_window k ms) ≡ min k (length (compact_messages ms)))
      × All IsClean (prior_window k ms)
unfolding prior_window
prior_window-suffix k ms = elim (Bool-cases (ltb k (length (compact_messages ms)))) [
  | inl e ↦ (
    take (length (compact_messages ms) - k) (compact_messages ms),
    rw e (take-append-drop _ (compact_messages ms)),
    rw e (
        omega (
          arith,
          length-drop (length (compact_messages ms) - k) (compact_messages ms),
          ltb→lt _ _ e,
        )),
    prior_window-IsClean k ms,
  )
  | inr e ↦ ([], rw e, rw e (ground arith), prior_window-IsClean k ms)
]

length-preview_tail : length (codes "\n" ++ (ellipsis ++ codes "(truncated)")) ≡ 15
length-preview_tail = refl

-- What the ledger quotes of a result is the whole result up to 3000 bytes, and never more than 3000.
pub ledger_preview_bounds :
    (result : Bytes) (iteration : ℕ)
    → (length result ≤ 3000 → ledger_preview result iteration ≡ result)
      × (length (ledger_preview result iteration) ≤ 3000)
unfolding ledger_preview
ledger_preview_bounds result iteration = (
  λ h. ground arith,
  ground (
    arith,
    length-preview_tail,
    length-append (take (preview_limit iteration) result)
        (codes "\n" ++ (ellipsis ++ codes "(truncated)")),
    length-take (preview_limit iteration) result,
  ),
)
