-- ===== src/Paths/Gate.antt =====
-- For which files the user is asked.
use altclaw.Common.{
  Bool, true, false, Option, none, some, List, [], ◌∷◌, ◌++◌, ◌&&◌, ◌||◌, not, Bytes, codes,
  contains, All, text_eq, text_eq_iff, has_prefix, any, all, ◌==◌, if◌then◌else◌, ◌↔◌, ◌⊎◌, inl,
  inr, arith, ◌≡◌, ◌≢◌, refl, ap, sym, ◌∙◌, subst,
}
use altclaw.Settings.{CommonSettings, SettingsResolver, ignore_restricted}
use altclaw.Paths.{
  GateSettings, gate_ignores, gate_is_off_for, gate_is_off, trim_slash, base_name, matches_line,
  matches_lines, Components, Files, split, join, rel, dot_or, rel_text, is_dotted, is_hidden,
  is_ignored, is_approved, granted, approved, rejected, hidden_file, ignored_file, Question, reason,
  ask_for, check_restricted,
}

-- A component of a path has no slash.
abbrev pub is_component : Bytes → Bool
is_component p = all (λ c. not (c == 47)) p

split-component : (p : Bytes) → is_component p ≡ true → split p ≡ p ∷ []
unfolding split
split-component [] h = refl
split-component (c ∷ p) h =
    rw (split-component p (ground arith), first (c == 47) (is_component p) h)
  where
    first : (b r : Bool) → (not b && r) ≡ true → b ≡ false
    first b r e = ground arith

split-append : (p s : Bytes) → is_component p ≡ true → split (p ++ (47 ∷ s)) ≡ p ∷ split s
unfolding split
split-append [] s h = refl
split-append (c ∷ p) s h = rw (split-append p s (ground arith), first (c == 47) (is_component p) h)
  where
    first : (b r : Bool) → (not b && r) ≡ true → b ≡ false
    first b r e = ground arith

split-join :
    (p : Bytes) (ps : List Bytes)
    → all is_component (p ∷ ps) ≡ true
    → split (join (p ∷ ps)) ≡ p ∷ ps
unfolding join
split-join p [] h = split-component p (ground arith)
split-join p (q ∷ ps) h =
    split-append p (join (q ∷ ps)) (ground arith) ∙ ap (λ t. p ∷ t) (split-join q ps (ground arith))

rel-append : (root rest : Components) → rel root (root ++ rest) ≡ rest
unfolding rel
rel-append [] rest = refl
rel-append (b ∷ root) rest = rw ((text_eq_iff b b).1 refl, rel-append root rest)

any-split :
    (rest : Components)
    → all is_component rest ≡ true
    → any is_dotted (split (dot_or rest)) ≡ any is_dotted rest
unfolding split has_prefix text_eq
any-split [] h = refl
any-split (p ∷ ps) h = ap (any is_dotted) (split-join p ps h)

is_hidden-append :
    (root rest : Components)
    → all is_component rest ≡ true
    → is_hidden root (root ++ rest) ≡ any is_dotted rest
unfolding is_hidden rel_text
is_hidden-append root rest h =
    ap (λ r. any is_dotted (split (dot_or r))) (rel-append root rest) ∙ any-split rest h

-- The settings that count turn the gate off.
abbrev pub IsIgnored : Option SettingsResolver → CommonSettings → Type 0
IsIgnored none ws = ws.ignore_restricted ≡ true
IsIgnored (some r) ws = ignore_restricted r ≡ true

-- There is no workspace or no handler, or the settings turn the gate off.
abbrev pub IsUngated : GateSettings → Type 0
IsUngated g =
    (g.ws ≡ none)
    ⊎ (g.has_handler ≡ false)
    ⊎ ((ws : CommonSettings) × (g.ws ≡ some ws) × IsIgnored g.store ws)

gate_ignores_iff :
    (store : Option SettingsResolver) (ws : CommonSettings)
    → (gate_ignores store ws ≡ true) ↔ IsIgnored store ws
gate_ignores_iff none ws = (λ e. e, λ e. e)
gate_ignores_iff (some r) ws = (λ e. e, λ e. e)

gate_is_off_iff : (g : GateSettings) → (gate_is_off g ≡ true) ↔ IsUngated g
gate_is_off_iff g = by_ws g.ws refl
  where
    by_ws : (o : Option CommonSettings) → g.ws ≡ o → (gate_is_off_for o g ≡ true) ↔ IsUngated g
    by_ws none e = (λ _. inl e, λ _. refl)
    by_ws (some ws) e = (found g.has_handler refl, given)
      where
        found :
            (b : Bool) → g.has_handler ≡ b → (not b || gate_ignores g.store ws) ≡ true → IsUngated g
        found false h k = inr (inl h)
        found true h k = inr (inr (ws, e, (gate_ignores_iff g.store ws).0 k))

        given : IsUngated g → (not g.has_handler || gate_ignores g.store ws) ≡ true
        given (inl n) = absurd (cc)
        given (inr (inl h)) = ground arith
        given (inr (inr (v, s, i))) =
            let same : v ≡ ws = cc (s, e) in
            let on : gate_ignores g.store ws ≡ true =
              subst (λ x. gate_ignores g.store x ≡ true) same ((gate_ignores_iff g.store v).1 i) in
            ground arith

-- A component that does not begin with a dot, or is one of the two exceptions.
abbrev pub IsShown : Bytes → Type 0
IsShown p = (has_prefix p (codes ".") ≡ false) ⊎ (p ≡ codes ".") ⊎ (p ≡ codes ".agent")

is_dotted_iff : (p : Bytes) → (is_dotted p ≡ false) ↔ IsShown p
is_dotted_iff p = (
  found (has_prefix p (codes ".")) refl (text_eq p (codes ".")) refl (text_eq p (codes ".agent"))
      refl,
  given,
)
  where
    found :
        (x : Bool)
        → has_prefix p (codes ".") ≡ x
        → (y : Bool) → text_eq p (codes ".") ≡ y
        → (z : Bool) → text_eq p (codes ".agent") ≡ z
        → (x && not y && not z) ≡ false
        → IsShown p
    found false ex y ey z ez k = inl ex
    found true ex true ey z ez k = inr (inl ((text_eq_iff p (codes ".")).0 ey))
    found true ex false ey true ez k = inr (inr ((text_eq_iff p (codes ".agent")).0 ez))
    found true ex false ey false ez k = absurd (cc)

    given : IsShown p → is_dotted p ≡ false
    given (inl e) = ground (arith, e)
    given (inr (inl e)) = ground (arith, (text_eq_iff p (codes ".")).1 e)
    given (inr (inr e)) = ground (arith, (text_eq_iff p (codes ".agent")).1 e)

is_dotted-IsShown : (rest : Components) → (any is_dotted rest ≡ false) ↔ All IsShown rest
is_dotted-IsShown [] = (λ _. tt, λ _. refl)
is_dotted-IsShown (p ∷ rest) =
    let (here, here') = is_dotted_iff p in
    let (there, there') = is_dotted-IsShown rest in
    (
      λ e. (here (ground arith), there (ground arith)),
      λ (s, ss). ground (arith, here' s, there' ss),
    )

module _ (f : Files) where
  -- A trimmed line of an ignore file that says nothing of a path.
  abbrev pub IsNoMatch : Bytes → Components → Type 0
  IsNoMatch line rest =
      (line ≡ [])
      ⊎ (has_prefix line (codes "#") ≡ true)
      ⊎ ((contains line (codes "/") ≡ true) × (f.matches (trim_slash line) (dot_or rest) ≡ false))
      ⊎ ((contains line (codes "/") ≡ false)
          × (f.matches line (base_name rest) ≡ false)
          × (f.matches (codes "**/" ++ line) (dot_or rest) ≡ false))

  -- A file that cannot be read, or whose lines say nothing of a path.
  abbrev pub IsSilent : Option (List Bytes) → Components → Type 0
  IsSilent none rest = Unit
  IsSilent (some ls) rest = All (λ line. IsNoMatch (f.trim_space line) rest) ls

  abbrev pub IsUnlisted : Components → Components → Type 0
  IsUnlisted root rest =
      IsSilent (f.lines (root ++ codes ".gitignore" ∷ [])) rest
      × IsSilent (f.lines (root ++ codes ".agentignore" ∷ [])) rest

  matches_line_iff :
      (line : Bytes) (rest : Components) → (matches_line f line rest ≡ false) ↔ IsNoMatch line rest
  unfolding matches_line
  matches_line_iff line rest = (
    found (text_eq line []) refl (has_prefix line (codes "#")) refl (contains line (codes "/"))
        refl,
    given,
  )
    where
      found :
          (x : Bool)
          → text_eq line [] ≡ x
          → (y : Bool) → has_prefix line (codes "#") ≡ y
          → (z : Bool) → contains line (codes "/") ≡ z
          → (if x || y
              then false
              else if z
              then f.matches (trim_slash line) (dot_or rest)
              else f.matches line (base_name rest) || f.matches (codes "**/" ++ line) (dot_or rest))
            ≡ false
          → IsNoMatch line rest
      found true ex y ey z ez k = inl ((text_eq_iff line []).0 ex)
      found false ex true ey z ez k = inr (inl ey)
      found false ex false ey true ez k = inr (inr (inl (ez, k)))
      found false ex false ey false ez k = inr (inr (inr (ez, ground arith, ground arith)))

      given : IsNoMatch line rest → matches_line f line rest ≡ false
      given (inl e) = ground (arith, (text_eq_iff line []).1 e)
      given (inr (inl e)) = ground (arith, e)
      given (inr (inr (inl (c, m)))) = ground (arith, c, m)
      given (inr (inr (inr (c, m, n)))) = ground (arith, c, m, n)

  matches_lines_iff :
      (o : Option (List Bytes)) (rest : Components)
      → (matches_lines f o rest ≡ false) ↔ IsSilent o rest
  unfolding matches_lines
  matches_lines_iff none rest = (λ _. tt, λ _. refl)
  matches_lines_iff (some []) rest = (λ _. tt, λ _. refl)
  matches_lines_iff (some (l ∷ ls)) rest =
      let (here, here') = matches_line_iff (f.trim_space l) rest in
      let (there, there') = matches_lines_iff (some ls) rest in
      (
        λ e. (here (ground arith), there (ground arith)),
        λ (m, ms). ground (arith, here' m, there' ms),
      )

  is_ignored_iff :
      (root rest : Components) → (is_ignored f root (root ++ rest) ≡ false) ↔ IsUnlisted root rest
  unfolding is_ignored
  is_ignored_iff root rest =
      let same = rel-append root rest in
      let (git, git') = matches_lines_iff (f.lines (root ++ codes ".gitignore" ∷ [])) rest in
      let (agent, agent') = matches_lines_iff (f.lines (root ++ codes ".agentignore" ∷ [])) rest in
      subst
        (λ r.
          ((matches_lines f (f.lines (root ++ codes ".gitignore" ∷ [])) r
              || (matches_lines f (f.lines (root ++ codes ".agentignore" ∷ [])) r || false))
            ≡ false)
          ↔ IsUnlisted root rest)
        (sym same)
        (
          λ e. (git (ground arith), agent (ground arith)),
          λ (x, y). ground (arith, git' x, agent' y),
        )

not_granted : (b : Bool) → (if b then approved else rejected) ≢ granted
not_granted true e = ground arith
not_granted false e = ground arith

module _ (f : Files) (ask : Question → Bytes) where
  ask_for-granted :
      (hidden ignored : Bool) (op path : Bytes)
      → (ask_for f ask (reason f ask hidden ignored) op path ≡ granted)
        ↔ ((hidden ≡ false) × (ignored ≡ false))
  unfolding ask_for
  ask_for-granted true ignored op path = (
    λ e. absurd (not_granted (is_approved f (ask (op, path, hidden_file))) e),
    λ (h, i). absurd (ground arith),
  )
  ask_for-granted false true op path = (
    λ e. absurd (not_granted (is_approved f (ask (op, path, ignored_file))) e),
    λ (h, i). absurd (ground arith),
  )
  ask_for-granted false false op path = (λ _. (refl, refl), λ _. refl)

  -- A script gets a file below the workspace without a question exactly if either the gate is off (there
  -- is no workspace or no handler, or the settings of the store say so, or, without a store, those of
  -- the workspace), or both: no component of its relative path begins with a dot (but for "." and
  -- ".agent"), and in neither .gitignore nor .agentignore of the workspace is there a line that, trimmed,
  -- is not empty, is no comment, and matches: with a slash in it the relative path (with a slash at its front
  -- taken off), otherwise the last component, or the path after "**/".
  pub check_restricted-granted_iff :
      (g : GateSettings) (root rest : Components) (op : Bytes)
      → all is_component rest ≡ true
      → (check_restricted f ask g root (root ++ rest) op ≡ granted)
        ↔ (IsUngated g ⊎ (All IsShown rest × IsUnlisted f root rest))
  unfolding check_restricted
  check_restricted-granted_iff g root rest op h = by_gate (gate_is_off g) refl
    where
      text : Bytes
      text = rel_text root (root ++ rest)

      ignored : Bool
      ignored = is_ignored f root (root ++ rest)

      asked :
          (ask_for f ask (reason f ask (is_hidden root (root ++ rest)) ignored) op text ≡ granted)
          ↔ ((any is_dotted rest ≡ false) × (ignored ≡ false))
      asked =
          subst
            (λ b.
              (ask_for f ask (reason f ask b ignored) op text ≡ granted)
              ↔ ((any is_dotted rest ≡ false) × (ignored ≡ false)))
            (sym (is_hidden-append root rest h))
            (ask_for-granted (any is_dotted rest) ignored op text)

      by_gate :
          (b : Bool)
          → gate_is_off g ≡ b
          → ((if b
                then granted
                else ask_for f ask (reason f ask (is_hidden root (root ++ rest)) ignored) op text)
              ≡ granted)
            ↔ (IsUngated g ⊎ (All IsShown rest × IsUnlisted f root rest))
      by_gate true e = (λ _. inl ((gate_is_off_iff g).0 e), λ _. refl)
      by_gate false e = (found, given)
        where
          found :
              ask_for f ask (reason f ask (is_hidden root (root ++ rest)) ignored) op text ≡ granted
              → IsUngated g ⊎ (All IsShown rest × IsUnlisted f root rest)
          found k =
              let (shown, kept) = asked.0 k in
              inr ((is_dotted-IsShown rest).0 shown, (is_ignored_iff f root rest).0 kept)

          given :
              IsUngated g ⊎ (All IsShown rest × IsUnlisted f root rest)
              → ask_for f ask (reason f ask (is_hidden root (root ++ rest)) ignored) op text
                ≡ granted
          given (inl u) = absurd (ground (arith, (gate_is_off_iff g).1 u, e))
          given (inr (shown, kept)) =
              asked.1 ((is_dotted-IsShown rest).1 shown, (is_ignored_iff f root rest).1 kept)
