-- ===== src/Memory/Overlap.antt =====
-- The score of two texts does not depend on which is the query.
use altclaw.Common.{
  ℕ, ◌+◌, ◌*◌, Bool, true, false, List, [], ◌∷◌, ◌&&◌, ◌||◌, not, Bytes, text_eq, text_eq_iff, ltb,
  ◌==◌, length, if◌then◌else◌, arith, ◌≡◌, refl, sym, ap, ap₂, ◌∙◌,
}
use native.Mathlib.Nat.{mul_comm}
use altclaw.Memory.{Memory, is_seen, fields, unseen, tokenize, matches, is_low, is_nil, is_left_out}

abbrev pub distinct : List Bytes → Bool
distinct [] = true
distinct (w ∷ ws) = not (is_seen w ws) && distinct ws

-- What was seen is not taken again.
unseen-is_seen :
    (w : Bytes) (seen ws : List Bytes) → is_seen w seen ≡ true → is_seen w (unseen seen ws) ≡ false
unfolding unseen
unseen-is_seen w seen [] h = refl
unseen-is_seen w seen (v ∷ ws) h =
    ground (arith, text_eq_iff w v, unseen-is_seen w (v ∷ seen) ws, unseen-is_seen w seen ws h)

distinct-unseen : (seen ws : List Bytes) → distinct (unseen seen ws) ≡ true
unfolding unseen
distinct-unseen seen [] = refl
distinct-unseen seen (v ∷ ws) = ground (
  arith,
  text_eq_iff v v,
  unseen-is_seen v (v ∷ seen) ws,
  distinct-unseen (v ∷ seen) ws,
  distinct-unseen seen ws,
)

distinct-tokenize : (f : Bytes → Bytes) (s : Bytes) → distinct (tokenize f s) ≡ true
unfolding tokenize
distinct-tokenize f s = ground (arith, distinct-unseen [] (fields [] (f s)))

abbrev bit : Bool → ℕ
bit b = if b then 1 else 0

count : Bytes → List Bytes → ℕ
count w [] = 0
count w (v ∷ vs) = bit (text_eq w v) + count w vs

pairs : List Bytes → List Bytes → ℕ
pairs [] vs = 0
pairs (w ∷ ws) vs = count w vs + pairs ws vs

text_eq_comm : (a b : Bytes) → text_eq a b ≡ text_eq b a
text_eq_comm a b = ground (arith, text_eq_iff a b, text_eq_iff b a)

-- In a list without repetitions a word stands once or not at all.
count-bit : (w : Bytes) (vs : List Bytes) → distinct vs ≡ true → count w vs ≡ bit (is_seen w vs)
unfolding count
count-bit w [] h = refl
count-bit w (v ∷ vs) h = ground (arith, text_eq_iff w v, count-bit w vs)

matches-pairs : (ws vs : List Bytes) → distinct vs ≡ true → matches ws vs ≡ pairs ws vs
unfolding matches pairs
matches-pairs [] vs h = refl
matches-pairs (w ∷ ws) vs h = ground (arith, count-bit w vs h, matches-pairs ws vs h)

pairs-cons : (vs ws : List Bytes) (w : Bytes) → pairs vs (w ∷ ws) ≡ count w vs + pairs vs ws
unfolding pairs count
pairs-cons [] ws w = omega arith
pairs-cons (v ∷ vs) ws w = omega (arith, ap bit (text_eq_comm v w), pairs-cons vs ws w)

pairs-nil : (vs : List Bytes) → pairs vs [] ≡ 0
unfolding pairs count
pairs-nil [] = refl
pairs-nil (v ∷ vs) = omega (arith, pairs-nil vs)

pairs_comm : (ws vs : List Bytes) → pairs ws vs ≡ pairs vs ws
unfolding pairs
pairs_comm [] vs = sym (pairs-nil vs)
pairs_comm (w ∷ ws) vs = omega (arith, pairs-cons vs ws w, pairs_comm ws vs)

matches_comm :
    (ws vs : List Bytes) → distinct ws ≡ true → distinct vs ≡ true → matches ws vs ≡ matches vs ws
matches_comm ws vs dw dv = matches-pairs ws vs dv ∙ pairs_comm ws vs ∙ sym (matches-pairs vs ws dw)

abbrev low : ℕ → ℕ → Bool
low m product = m == 0 || ltb (100 * (m * m)) product

is_low_comm :
    (ws vs : List Bytes) → distinct ws ≡ true → distinct vs ≡ true → is_low ws vs ≡ is_low vs ws
unfolding is_low
is_low_comm ws vs dw dv = ap₂ low (matches_comm ws vs dw dv) (mul_comm (length ws) (length vs))

-- Of two memories whose texts have a word, the one is left out of a search for the other's text exactly
-- if the other is left out of a search for its text: it does not matter which of the two is the query.
pub is_left_out_comm :
    (to_lower : Bytes → Bytes) (e g : Memory)
    → is_nil (tokenize to_lower e.content) ≡ false
    → is_nil (tokenize to_lower g.content) ≡ false
    → is_left_out to_lower (tokenize to_lower e.content) g
      ≡ is_left_out to_lower (tokenize to_lower g.content) e
is_left_out_comm f e g he hg =
    let low_comm =
      is_low_comm (tokenize f e.content) (tokenize f g.content) (distinct-tokenize f e.content)
        (distinct-tokenize f g.content) in
    ap₂ (λ x y. not x && y) (he ∙ sym hg) low_comm
