-- ===== src/Pool/Distinct.antt =====
-- Association lists whose keys differ from each other.
use altclaw.Common.{
  ℕ, ◌+◌, Bool, true, false, Option, none, some, List, [], ◌∷◌, ◌&&◌, if◌then◌else◌, sum_by, lookup,
  insert, remove, lookup-remove, Bytes, bytes_eq, text_eq, text_eq_iff, arith, ◌≡◌, refl, ap, ap₂,
  subst, some-inj,
}

module _ {V : Type 0} where
  abbrev pub is_free : Option V → Bool
  is_free none = true
  is_free (some _) = false

  abbrev pub distinct : List (Bytes × V) → Bool
  distinct [] = true
  distinct ((k, v) ∷ m) = is_free (lookup k m) && distinct m

  pub distinct-remove :
      (k : Bytes) (m : List (Bytes × V)) → distinct m ≡ true → distinct (remove k m) ≡ true
  unfolding remove
  distinct-remove k [] h = refl
  distinct-remove k ((j, v) ∷ m) h = ground (arith, distinct-remove k m, lookup-remove k j m)

  pub distinct-insert :
      (k : Bytes) (v : V) (m : List (Bytes × V))
      → distinct m ≡ true
      → distinct (insert k v m) ≡ true
  unfolding insert
  distinct-insert k v m h =
      ground (arith, distinct-remove k m h, lookup-remove k k m, bytes_eq.beq_iff k k)

  free_none : (o : Option V) → is_free o ≡ true → o ≡ none
  free_none none h = refl
  free_none (some v) h = absurd (ground arith)

  module _ (w : Bytes × V → ℕ) where
    sum_by-absent :
        (k : Bytes) (m : List (Bytes × V)) → lookup k m ≡ none → sum_by w (remove k m) ≡ sum_by w m
    unfolding lookup remove
    sum_by-absent k [] h = refl
    sum_by-absent k ((j, v) ∷ m) h = ground (arith, sum_by-absent k m)

    pub sum_by-removed :
        (k : Bytes) (v : V) (m : List (Bytes × V))
        → distinct m ≡ true
        → lookup k m ≡ some v
        → sum_by w (remove k m) + w (k, v) ≡ sum_by w m
    unfolding lookup remove
    sum_by-removed k v [] d h = absurd (ground arith)
    sum_by-removed k v ((j, u) ∷ m) d h =
        by_key (text_eq j k) refl h (sum_by-removed k v m (ground (arith, d)))
      where
        by_key :
            (b : Bool)
            → text_eq j k ≡ b
            → (if b then some u else lookup k m) ≡ some v
            → (lookup k m ≡ some v → sum_by w (remove k m) + w (k, v) ≡ sum_by w m)
            → sum_by w (if b then remove k m else (j, u) ∷ remove k m) + w (k, v)
              ≡ w (j, u) + sum_by w m
        by_key true e l rest =
            let same : j ≡ k = (text_eq_iff j k).0 e in
            let free : lookup k m ≡ none =
              subst (λ x. lookup x m ≡ none) same (free_none (lookup j m) (ground (arith, d))) in
            omega (arith, sum_by-absent k m free, ap w (ap₂ (λ x y. (x, y)) same (some-inj u v l)))
        by_key false e l rest = omega (arith, rest l)

    pub sum_by-insert_new :
        (k : Bytes) (v : V) (m : List (Bytes × V))
        → lookup k m ≡ none
        → sum_by w (insert k v m) ≡ w (k, v) + sum_by w m
    unfolding insert
    sum_by-insert_new k v m h = omega (arith, sum_by-absent k m h)

    pub sum_by-insert :
        (k : Bytes) (u v : V) (m : List (Bytes × V))
        → distinct m ≡ true
        → lookup k m ≡ some u
        → sum_by w (insert k v m) + w (k, u) ≡ w (k, v) + sum_by w m
    unfolding insert
    sum_by-insert k u v m d h = omega (arith, sum_by-removed k u m d h)
