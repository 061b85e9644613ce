-- ===== src/Secrets/Expand.antt =====
-- The text in which placeholders are replaced.
use altclaw.Common.{
  ℕ, zero, suc, Bool, true, false, Option, none, some, List, [], ◌∷◌, ◌++◌, ◌&&◌, not, Bytes, codes,
  text_eq_iff, ◌==◌, if◌then◌else◌, length, length-append, drop, all, append_assoc, append-nil,
  arith, ◌≡◌, refl, ap, sym, ◌∙◌, subst,
}
use altclaw.Secrets.{
  Secret, before_save, Store, is_blank, find_row, get_secret, delete_secret, save_checked,
  save_secret, set_secret, placeholder_start, placeholder, is_name_char, strip_prefix,
  name_and_rest, closed_name, after_start, match_here, value_or, user_value, resolve, tail_length,
  expand_from, expand_secrets,
}

-- A piece of a text: one that starts no placeholder, or a placeholder.
pub data Piece : Type 0 where
  text : Bytes → Piece
  secret : Bytes → Piece

-- No two braces follow each other, and the last character is none.
abbrev pub is_plain : Bytes → Bool
is_plain [] = true
is_plain (c ∷ []) = not (c == 123)
is_plain (c ∷ d ∷ s) = not (c == 123 && d == 123) && is_plain (d ∷ s)

abbrev pub is_name : Bytes → Bool
is_name name = not (is_blank name) && all is_name_char name

abbrev pub is_piece : Piece → Bool
is_piece (text t) = is_plain t
is_piece (secret name) = is_name name

-- The text with each placeholder as a function of its name.
abbrev pub render : (Bytes → Bytes) → List Piece → Bytes
render f [] = []
render f (text t ∷ ps) = t ++ render f ps
render f (secret name ∷ ps) = f name ++ render f ps

strip_prefix-append : (p s : Bytes) → strip_prefix p (p ++ s) ≡ some s
unfolding strip_prefix
strip_prefix-append [] s = refl
strip_prefix-append (b ∷ p) s = ground (arith, strip_prefix-append p s)

name_and_rest-append :
    (name s : Bytes)
    → all is_name_char name ≡ true
    → name_and_rest (name ++ (125 ∷ s)) ≡ (name, 125 ∷ s)
unfolding name_and_rest
name_and_rest-append [] s h = ground arith
name_and_rest-append (c ∷ name) s h =
    let this : is_name_char c ≡ true = head (is_name_char c) h in
    let rest : all is_name_char name ≡ true = tail (is_name_char c) h in
    rw (this, name_and_rest-append name s rest)
  where
    head : (b : Bool) → (b && all is_name_char name) ≡ true → b ≡ true
    head b e = ground arith

    tail : (b : Bool) → (b && all is_name_char name) ≡ true → all is_name_char name ≡ true
    tail b e = ground arith

closed_name-name :
    (name s : Bytes) → is_name name ≡ true → closed_name (name, 125 ∷ 125 ∷ s) ≡ some name
unfolding closed_name strip_prefix
closed_name-name [] s h = absurd (ground arith)
closed_name-name (c ∷ name) s h = refl

match_here-placeholder :
    (name s : Bytes) → is_name name ≡ true → match_here (placeholder name ++ s) ≡ some name
unfolding match_here placeholder
match_here-placeholder name s h =
    let same : (name ++ (125 ∷ 125 ∷ [])) ++ s ≡ name ++ (125 ∷ 125 ∷ s) =
      append_assoc name (125 ∷ 125 ∷ []) s in
    ap (λ t. closed_name (name_and_rest t)) same
    ∙ ap closed_name (name_and_rest-append name (125 ∷ s) (chars (is_blank name) h))
    ∙ closed_name-name name s h
  where
    chars : (b : Bool) → (not b && all is_name_char name) ≡ true → all is_name_char name ≡ true
    chars b e = ground arith

skipped :
    (f : Bytes → Bytes) (s t : Bytes) (n : ℕ)
    → length s ≡ n
    → expand_from f n (s ++ t) ≡ expand_from f 0 t
unfolding expand_from
skipped f [] t zero h = refl
skipped f [] t (suc n) h = absurd (omega arith)
skipped f (c ∷ s) t zero h = absurd (omega arith)
skipped f (c ∷ s) t (suc n) h = skipped f s t n (omega arith)

abbrev placeholder_tail : Bytes → Bytes
placeholder_tail name = drop 1 placeholder_start ++ name ++ codes "}}"

expand_from-placeholder :
    (f : Bytes → Bytes) (name s : Bytes)
    → is_name name ≡ true
    → expand_from f 0 (placeholder name ++ s) ≡ f name ++ expand_from f 0 s
unfolding expand_from placeholder
expand_from-placeholder f name s h =
    by_match (match_here (placeholder name ++ s)) (match_here-placeholder name s h)
  where
    by_match :
        (o : Option Bytes)
        → o ≡ some name
        → elim o as (λ _. Bytes) [
          | none ↦ 123 ∷ expand_from f 0 (placeholder_tail name ++ s)
          | some n ↦ f n ++ expand_from f (tail_length n) (placeholder_tail name ++ s)
        ]
          ≡ f name ++ expand_from f 0 s
    by_match o e =
        subst
          (λ o.
            elim o as (λ _. Bytes) [
              | none ↦ 123 ∷ expand_from f 0 (placeholder_tail name ++ s)
              | some n ↦ f n ++ expand_from f (tail_length n) (placeholder_tail name ++ s)
            ]
            ≡ f name ++ expand_from f 0 s)
          (sym e)
          (ap (λ t. f name ++ t)
            (skipped f (placeholder_tail name) s (tail_length name)
              (omega (arith, length-append name (125 ∷ 125 ∷ [])))))

-- No match starts at a character that is not followed by what the placeholder needs.
match_here-plain :
    (c d : ℕ) (s : Bytes) → (c == 123 && d == 123) ≡ false → match_here (c ∷ d ∷ s) ≡ none
unfolding match_here strip_prefix
match_here-plain c d s h = by_braces (c == 123) (d == 123) h
  where
    by_braces :
        (b e : Bool)
        → (b && e) ≡ false
        → after_start (if b then (if e then strip_prefix (codes "secrets.") s else none) else none)
          ≡ none
    by_braces true true k = absurd (ground arith)
    by_braces true false k = refl
    by_braces false e k = refl

match_here-last : (c : ℕ) (s : Bytes) → (c == 123) ≡ false → match_here (c ∷ s) ≡ none
unfolding match_here strip_prefix
match_here-last c s h = rw h

expand_from-none :
    (f : Bytes → Bytes) (c : ℕ) (s : Bytes)
    → match_here (c ∷ s) ≡ none
    → expand_from f 0 (c ∷ s) ≡ c ∷ expand_from f 0 s
unfolding expand_from
expand_from-none f c s h =
    subst
      (λ o.
        elim o as (λ _. Bytes) [
          | none ↦ c ∷ expand_from f 0 s
          | some name ↦ f name ++ expand_from f (tail_length name) s
        ]
        ≡ c ∷ expand_from f 0 s)
      (sym h) refl

expand_from-plain :
    (f : Bytes → Bytes) (t s : Bytes)
    → is_plain t ≡ true
    → expand_from f 0 (t ++ s) ≡ t ++ expand_from f 0 s
expand_from-plain f [] s h = refl
expand_from-plain f (c ∷ []) s h = expand_from-none f c s (match_here-last c s (ground arith))
expand_from-plain f (c ∷ d ∷ t) s h =
    expand_from-none f c (d ∷ t ++ s) (match_here-plain c d (t ++ s) (ground arith))
    ∙ ap (λ u. c ∷ u) (expand_from-plain f (d ∷ t) s (ground arith))

expand_from-render :
    (f : Bytes → Bytes) (ps : List Piece)
    → all is_piece ps ≡ true
    → expand_from f 0 (render placeholder ps) ≡ render f ps
unfolding expand_from
expand_from-render f [] h = refl
expand_from-render f (text t ∷ ps) h =
    expand_from-plain f t (render placeholder ps) (ground arith)
    ∙ ap (λ u. t ++ u) (expand_from-render f ps (ground arith))
expand_from-render f (secret name ∷ ps) h =
    expand_from-placeholder f name (render placeholder ps) (ground arith)
    ∙ ap (λ u. f name ++ u) (expand_from-render f ps (ground arith))

-- In a text of placeholders whose names the pattern allows, between pieces with no two braces in a row
-- and none at the end, `ExpandSecrets` replaces each placeholder with the secret's value (or leaves it
-- if there is none) and changes nothing else; placeholders inside the values are not expanded.
pub expand_secrets-render :
    (s : Store) (ps : List Piece)
    → all is_piece ps ≡ true
    → expand_secrets (some s) (render placeholder ps) ≡ render (resolve s) ps
unfolding expand_secrets
expand_secrets-render s ps h = expand_from-render (resolve s) ps h

find_row-first :
    (ws name value : Bytes) (rows : List Secret)
    → find_row ws name
        (record { id = name; workspace = ws; value = value; in_memory = false } ∷ rows)
      ≡ some (record { id = name; workspace = ws; value = value; in_memory = false })
unfolding find_row
find_row-first ws name value rows = rw ((text_eq_iff ws ws).1 refl, (text_eq_iff name name).1 refl)

set_secret-get :
    (ws name value : Bytes) (s s' : Store)
    → set_secret ws name value s ≡ (true, s')
    → (s'.workspace ≡ s.workspace)
      × (get_secret s' ws name
          ≡ some (record { id = name; workspace = ws; value = value; in_memory = false }))
unfolding set_secret save_secret save_checked before_save delete_secret get_secret
set_secret-get [] name value s s' h = absurd (ground arith)
set_secret-get (w ∷ ws) [] value s s' h = absurd (ground arith)
set_secret-get (w ∷ ws) (c ∷ name) value s s' h =
    subst
      (λ v.
        (v.workspace ≡ s.workspace)
        × (find_row (w ∷ ws) (c ∷ name) v.rows
            ≡ some
                (record { id = c ∷ name; workspace = w ∷ ws; value = value; in_memory = false })))
      (ap (λ p. p.1) h) (refl, find_row-first (w ∷ ws) (c ∷ name) value _)

resolve-found :
    (ws name value : Bytes) (s : Store)
    → s.workspace ≡ some ws
    → get_secret s ws name
      ≡ some (record { id = name; workspace = ws; value = value; in_memory = false })
    → resolve s name ≡ value
unfolding resolve
resolve-found ws name value s w g =
    subst
      (λ o.
        elim o as (λ _. Bytes) [
          | none ↦ user_value s name
          | some ws ↦ value_or (get_secret s ws name) (user_value s name)
        ]
        ≡ value)
      (sym w) (ap (λ o. value_or o (user_value s name)) g)

-- After the script has set a secret of the store's workspace, the placeholder that `secret.get` gives
-- for it, between pieces of plain text, is replaced with the value that was set, if the pattern allows
-- the name.
pub set_secret-expand :
    (ws name value t u : Bytes) (s s' : Store)
    → s.workspace ≡ some ws
    → is_name name ≡ true
    → is_plain t ≡ true
    → is_plain u ≡ true
    → set_secret ws name value s ≡ (true, s')
    → expand_secrets (some s') (t ++ (placeholder name ++ u)) ≡ t ++ (value ++ u)
set_secret-expand ws name value t u s s' w n pt pu h =
    let (kept, found) = set_secret-get ws name value s s' h in
    ap (λ v. expand_secrets (some s') (t ++ (placeholder name ++ v))) (sym (append-nil u))
    ∙ expand_secrets-render s' (text t ∷ secret name ∷ text u ∷ []) (ground (arith, n, pt, pu))
    ∙ ap (λ v. t ++ (v ++ (u ++ []))) (resolve-found ws name value s' (kept ∙ w) found)
    ∙ ap (λ v. t ++ (value ++ v)) (append-nil u)
