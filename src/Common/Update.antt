-- ===== src/Common/Update.antt =====
-- Reads after writes of lists by position, and sums over their members.
use Prim.Native.Nat.{ℕ, zero, suc, ◌+◌, ◌≤◌, ◌<◌}
use mathlib.Core.Path.{◌≡◌, refl, subst, ap}
use mathlib.Core.List.{map, List, [], ◌∷◌, ◌++◌}
use mathlib.Core.Option.{some}
use native.Mathlib.Omega.{arith}
use altclaw.Common.Tests.{if◌then◌else◌, ◌==◌, some-inj}
use altclaw.Common.Lists.{length, get_elem?, set, drop, All}

module _ {ℓ} {A : Type ℓ} where
  -- In one equation, for a position that is there.
  pub get_elem?-set :
      (xs : List A) (i j : ℕ) (u v : A)
      → get_elem? xs i ≡ some u
      → get_elem? (set xs i v) j ≡ (if i == j then some v else get_elem? xs j)
  get_elem?-set [] i j u v h = absurd (ground arith)
  get_elem?-set (x ∷ xs) zero zero u v h = refl
  get_elem?-set (x ∷ xs) zero (suc j) u v h = ground arith
  get_elem?-set (x ∷ xs) (suc i) zero u v h = ground arith
  get_elem?-set (x ∷ xs) (suc i) (suc j) u v h = ground (arith, get_elem?-set xs i j u v h)

  pub get_elem?-snoc :
      (xs : List A) (v : A) (j : ℕ)
      → get_elem? (xs ++ v ∷ []) j ≡ (if j == length xs then some v else get_elem? xs j)
  get_elem?-snoc [] v zero = refl
  get_elem?-snoc [] v (suc j) = ground arith
  get_elem?-snoc (x ∷ xs) v zero = ground arith
  get_elem?-snoc (x ∷ xs) v (suc j) = ground (arith, get_elem?-snoc xs v j)

  pub lt_of_get_elem? : (xs : List A) (i : ℕ) (u : A) → get_elem? xs i ≡ some u → i < length xs
  lt_of_get_elem? [] i u h = absurd (ground arith)
  lt_of_get_elem? (x ∷ xs) zero u h = omega arith
  lt_of_get_elem? (x ∷ xs) (suc i) u h = omega (arith, lt_of_get_elem? xs i u h)

  pub drop-snoc :
      (n : ℕ) (xs : List A) (v : A) → n ≤ length xs → drop n (xs ++ v ∷ []) ≡ drop n xs ++ v ∷ []
  drop-snoc zero xs v h = refl
  drop-snoc (suc n) [] v h = absurd (omega arith)
  drop-snoc (suc n) (x ∷ xs) v h = drop-snoc n xs v (omega arith)

  pub drop-length : (xs : List A) → drop (length xs) xs ≡ []
  drop-length [] = refl
  drop-length (x ∷ xs) = drop-length xs

  -- The sum of the weights of the members.
  abbrev pub sum_by : (A → ℕ) → List A → ℕ
  sum_by w [] = 0
  sum_by w (x ∷ xs) = w x + sum_by w xs

  pub sum_by-set :
      (w : A → ℕ) (xs : List A) (i : ℕ) (u v : A)
      → get_elem? xs i ≡ some u
      → sum_by w (set xs i v) + w u ≡ sum_by w xs + w v
  sum_by-set w [] i u v h = absurd (ground arith)
  sum_by-set w (x ∷ xs) zero u v h = ground arith
  sum_by-set w (x ∷ xs) (suc i) u v h = omega (arith, sum_by-set w xs i u v h)

  pub sum_by-snoc : (w : A → ℕ) (xs : List A) (v : A) → sum_by w (xs ++ v ∷ []) ≡ sum_by w xs + w v
  sum_by-snoc w [] v = omega arith
  sum_by-snoc w (x ∷ xs) v = omega (arith, sum_by-snoc w xs v)

  pub le-sum_by :
      (w : A → ℕ) (xs : List A) (i : ℕ) (u : A) → get_elem? xs i ≡ some u → w u ≤ sum_by w xs
  le-sum_by w [] i u h = absurd (ground arith)
  le-sum_by w (x ∷ xs) zero u h = ground arith
  le-sum_by w (x ∷ xs) (suc i) u h = omega (arith, le-sum_by w xs i u h)

  -- A sum that is not 0 has a member that counts.
  pub counted :
      (w : A → ℕ) (xs : List A)
      → 0 < sum_by w xs
      → (i : ℕ) × (u : A) × (get_elem? xs i ≡ some u) × (0 < w u)
  counted w [] h = absurd (omega arith)
  counted w (x ∷ xs) h = by_weight (w x) refl (counted w xs)
    where
      by_weight :
          (n : ℕ)
          → w x ≡ n
          → (0 < sum_by w xs → (i : ℕ) × (u : A) × (get_elem? xs i ≡ some u) × (0 < w u))
          → (i : ℕ) × (u : A) × (get_elem? (x ∷ xs) i ≡ some u) × (0 < w u)
      by_weight zero e rest = let (i, u, g, p) = rest (omega (arith, e)) in (suc i, u, g, p)
      by_weight (suc n) e rest = (0, x, refl, omega (arith, e))

module _ {ℓ κ} {A : Type ℓ} (P : A → Type κ) where
  pub All-set : (xs : List A) (i : ℕ) (v : A) → All P xs → P v → All P (set xs i v)
  All-set [] i v h p = h
  All-set (x ∷ xs) zero v h p = (p, h.1)
  All-set (x ∷ xs) (suc i) v h p = (h.0, All-set xs i v h.1 p)

  pub All-get_elem? : (xs : List A) (i : ℕ) (u : A) → All P xs → get_elem? xs i ≡ some u → P u
  All-get_elem? [] i u h e = absurd (ground arith)
  All-get_elem? (x ∷ xs) zero u h e = subst P (some-inj x u e) h.0
  All-get_elem? (x ∷ xs) (suc i) u h e = All-get_elem? xs i u h.1 e

pub map-append {ℓ κ} :
    {A : Type ℓ} {B : Type κ} (f : A → B) (xs : List A) (x : A)
    → map f (xs ++ x ∷ []) ≡ map f xs ++ f x ∷ []
map-append f [] x = refl
map-append f (y ∷ xs) x = ap (λ ys. f y ∷ ys) (map-append f xs x)

pub get_elem?-map {ℓ κ} :
    {A : Type ℓ} {B : Type κ} (f : A → B) (xs : List A) (i : ℕ) (x : A)
    → get_elem? xs i ≡ some x
    → get_elem? (map f xs) i ≡ some (f x)
get_elem?-map f [] i x e = absurd (ground arith)
get_elem?-map f (y ∷ xs) zero x e = ap some (ap f (some-inj y x e))
get_elem?-map f (y ∷ xs) (suc i) x e = get_elem?-map f xs i x e

pub length-map {ℓ κ} :
    {A : Type ℓ} {B : Type κ} (f : A → B) (xs : List A) → length (map f xs) ≡ length xs
length-map f [] = refl
length-map f (x ∷ xs) = ap suc (length-map f xs)
