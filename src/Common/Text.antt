-- ===== src/Common/Text.antt =====
-- Text as a list of bytes, with the tests of Go's `strings` package that the sources call.
use Prim.Native.Nat.{ℕ, suc}
use Prim.Native.Char.{code}
use Prim.Native.String.{String}
use mathlib.Core.Path.{◌≡◌, refl}
use mathlib.Core.Logic.{◌↔◌}
use mathlib.Core.Bool.{Bool, true, false, ◌&&◌, ◌||◌}
use mathlib.Core.Option
use mathlib.Core.Option.{Option, none, some}
use mathlib.Core.List.{List, [], ◌∷◌, ◌++◌}
use native.Mathlib.Omega.{arith}
use altclaw.Common.Tests.{◌==◌, if◌then◌else◌}

abbrev pub Bytes : Type 0
Bytes = List ℕ

-- The bytes of an ASCII literal.
abbrev pub codes : String → Bytes
codes String.[] = []
codes (String.◌∷◌ c s) = code c ∷ codes s

unfoldable pub text_eq : Bytes → Bytes → Bool
text_eq [] [] = true
text_eq (a ∷ s) (b ∷ t) = a == b && text_eq s t
text_eq _ _ = false

pub text_eq_iff : (s t : Bytes) → (text_eq s t ≡ true) ↔ (s ≡ t)
unfolding text_eq
text_eq_iff [] [] = ground arith
text_eq_iff [] (b ∷ t) = ground arith
text_eq_iff (a ∷ s) [] = ground arith
text_eq_iff (a ∷ s) (b ∷ t) = ground (arith, text_eq_iff s t)

-- `strings.HasPrefix s p`
unfoldable pub has_prefix : Bytes → Bytes → Bool
has_prefix s [] = true
has_prefix [] (b ∷ p) = false
has_prefix (a ∷ s) (b ∷ p) = a == b && has_prefix s p

pub has_prefix-append : (p s : Bytes) → has_prefix (p ++ s) p ≡ true
unfolding has_prefix
has_prefix-append [] s = refl
has_prefix-append (b ∷ p) s = ground (arith, has_prefix-append p s)

-- `strings.Contains s p`
unfoldable pub contains : Bytes → Bytes → Bool
unfolding has_prefix
contains [] p = has_prefix [] p
contains (a ∷ s) p = has_prefix (a ∷ s) p || contains s p

pub contains-append : (s p t : Bytes) → contains (s ++ (p ++ t)) p ≡ true
unfolding contains
contains-append [] p t = prefix-contains (p ++ t) p (has_prefix-append p t)
  where
    prefix-contains : (u q : Bytes) → has_prefix u q ≡ true → contains u q ≡ true
    prefix-contains [] q h = h
    prefix-contains (a ∷ u) q h = ground arith
contains-append (a ∷ s) p t = ground (arith, contains-append s p t)

-- `strings.Index s p`
unfoldable pub index : Bytes → Bytes → Option ℕ
index [] p = if has_prefix [] p then some 0 else none
index (a ∷ s) p = if has_prefix (a ∷ s) p then some 0 else Option.map suc (index s p)

-- `strings.LastIndex s p`
unfoldable pub last_index : Bytes → Bytes → Option ℕ
last_index [] p = if has_prefix [] p then some 0 else none
last_index (a ∷ s) p = elim (last_index s p) [
  | none ↦ if has_prefix (a ∷ s) p then some 0 else none
  | some i ↦ some (suc i)
]
