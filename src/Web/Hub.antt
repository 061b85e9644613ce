-- ===== src/Web/Hub.antt =====
-- Which tokens of the hub open a session.
use altclaw.Common.{
  ℕ, suc, ◌+◌, ◌*◌, ◌/◌, ◌^◌, ◌≤◌, ◌<◌, Bool, true, false, Option, none, some, [], ◌∷◌, ◌++◌, ◌&&◌,
  not, Bytes, codes, text_eq, text_eq_iff, if◌then◌else◌, index, take, drop, length, has_prefix,
  ◌==◌, arith, ◌≡◌, ◌≢◌, ◌↔◌, refl, sym, ap, ap₂, ◌∙◌, subst, some-inj,
}
use mathlib.Core.Option
use altclaw.IpFilter.{is_blank}
use altclaw.Web.{
  Server, Reply, refused, logged_in, ℤ, pos, negsuc, Outside, create_session, in_window, second,
}
use altclaw.Web.Login.{check_signature, check_parts, hub_login}

abbrev colon : Bytes
colon = codes ":"

index-split :
    (s : Bytes) (i : ℕ)
    → index s colon ≡ some i
    → (s ≡ take i s ++ (58 ∷ drop (suc i) s)) × (index (take i s) colon ≡ none)
unfolding index has_prefix
index-split [] i e = absurd (cc)
index-split (c ∷ s) i e = by_char (c == 58) refl (index s colon) refl e (index-split s)
  where
    by_char :
        (b : Bool)
        → (c == 58) ≡ b
        → (found : Option ℕ) → index s colon ≡ found
        → (if b && true then some 0 else Option.map suc found) ≡ some i
        → ((j : ℕ)
            → index s colon ≡ some j
            → (s ≡ take j s ++ (58 ∷ drop (suc j) s)) × (index (take j s) colon ≡ none))
        → (c ∷ s ≡ take i (c ∷ s) ++ (58 ∷ drop (suc i) (c ∷ s)))
          × (index (take i (c ∷ s)) colon ≡ none)
    by_char true h found l k next =
        subst
          (λ j.
            (c ∷ s ≡ take j (c ∷ s) ++ (58 ∷ drop (suc j) (c ∷ s)))
            × (index (take j (c ∷ s)) colon ≡ none))
          (some-inj 0 i k) (ground arith)
    by_char false h none l k next = absurd (cc)
    by_char false h (some j) l k next =
        let (p, q) = next j l in
        subst
          (λ j.
            (c ∷ s ≡ take j (c ∷ s) ++ (58 ∷ drop (suc j) (c ∷ s)))
            × (index (take j (c ∷ s)) colon ≡ none))
          (some-inj (suc j) i k) (ap (λ t. c ∷ t) p, ground arith)

index-append : (s t : Bytes) → index s colon ≡ none → index (s ++ (58 ∷ t)) colon ≡ some (length s)
unfolding index has_prefix
index-append [] t e = refl
index-append (c ∷ s) t e = by_char (c == 58) (index s colon) refl e (index-append s t)
  where
    by_char :
        (b : Bool) (found : Option ℕ)
        → index s colon ≡ found
        → (if b && true then some 0 else Option.map suc found) ≡ none
        → (index s colon ≡ none → index (s ++ (58 ∷ t)) colon ≡ some (length s))
        → (if b && true then some 0 else Option.map suc (index (s ++ (58 ∷ t)) colon))
          ≡ some (suc (length s))
    by_char true found l k next = absurd (cc)
    by_char false none l k next = ap (Option.map suc) (next l)
    by_char false (some j) l k next = absurd (cc)

nonblank-append : (s t : Bytes) → is_blank (s ++ (58 ∷ t)) ≡ false
nonblank-append [] t = refl
nonblank-append (c ∷ s) t = refl

take-length : (s t : Bytes) → take (length s) (s ++ t) ≡ s
take-length [] t = refl
take-length (c ∷ s) t = ap (λ u. c ∷ u) (take-length s t)

drop-length : (s : Bytes) (c : ℕ) (t : Bytes) → drop (suc (length s)) (s ++ (c ∷ t)) ≡ t
drop-length [] c t = refl
drop-length (d ∷ s) c t = drop-length s c t

abbrev pub is_login : Reply → Bool
is_login (logged_in id age) = true
is_login _ = false

-- The range of `strconv.ParseInt` for 64 bits.
abbrev pub IsInt64 : (Bytes → Option ℤ) → Type 0
IsInt64 parse = (ts : Bytes) (n : ℕ) → parse ts ≡ some (negsuc n) → n < 2 ^ 63

-- A time in seconds that is at most 60 seconds old, and at most 5 seconds ahead.
abbrev pub IsRecent : ℕ → Option ℤ → Type 0
IsRecent now parsed = (n : ℕ) × (parsed ≡ some (pos n)) × (now ≤ n + 60) × (n ≤ now + 5)

in_window_iff :
    (now : ℕ) (parsed : Option ℤ)
    → 60 ≤ now
    → now < 2 ^ 62
    → ((n : ℕ) → parsed ≡ some (negsuc n) → n < 2 ^ 63)
    → (in_window now parsed ≡ true) ↔ IsRecent now parsed
in_window_iff now none lo hi b = (λ e. absurd (cc), λ (n, e, p, q). absurd (cc))
in_window_iff now (some (pos n)) lo hi b = (
  λ e. (n, refl, ground arith, ground arith),
  λ (m, e, p, q). let same : n ≡ m = cc in ground arith,
)
in_window_iff now (some (negsuc n)) lo hi b =
    (λ e. absurd (ground (arith, b n refl)), λ (m, e, p, q). absurd (cc))

module _ (o : Outside) where
  check_signature-is_login :
      (t sig ts : Bytes) (s : Server)
      → is_login (check_signature o t sig ts s).0
        ≡ in_window (s.now / second) (o.parse_int ts)
          && (not (is_blank t) && text_eq sig (o.hmac t ts))
  unfolding check_signature create_session
  check_signature-is_login t sig ts s =
      by_tests (in_window (s.now / second) (o.parse_int ts)) (is_blank t)
        (text_eq sig (o.hmac t ts))
    where
      by_tests :
          (x b e : Bool)
          → is_login
              (if◌then◌else◌ {A = Reply × Server}
                (not x)
                (refused 403, s)
                (if b
                  then (refused 403, s)
                  else if e
                  then create_session o (86400 * 30) s
                  else (refused 403, s))).0
            ≡ x && (not b && e)
      by_tests false b e = refl
      by_tests true true e = refl
      by_tests true false true = refl
      by_tests true false false = refl

  is_blank-nil : (t : Bytes) → is_blank t ≡ false → t ≢ []
  is_blank-nil [] e = absurd (cc)
  is_blank-nil (c ∷ t) e = λ k. cc

  nil-is_blank : (t : Bytes) → t ≢ [] → is_blank t ≡ false
  nil-is_blank [] n = absurd (n refl)
  nil-is_blank (c ∷ t) n = refl

  check_signature_iff :
      (t sig ts : Bytes) (s : Server)
      → IsInt64 o.parse_int
      → 60 ≤ s.now / second
      → s.now / second < 2 ^ 62
      → (is_login (check_signature o t sig ts s).0 ≡ true)
        ↔ ((t ≢ []) × (sig ≡ o.hmac t ts) × IsRecent (s.now / second) (o.parse_int ts))
  check_signature_iff t sig ts s range lo hi =
      let window = in_window_iff (s.now / second) (o.parse_int ts) lo hi (range ts) in
      let parts = check_signature-is_login t sig ts s in
      (
        λ e.
            by_tests (in_window (s.now / second) (o.parse_int ts)) (is_blank t)
              (text_eq sig (o.hmac t ts)) (sym parts ∙ e) window.0 (is_blank-nil t)
              (text_eq_iff sig (o.hmac t ts)).0,
        λ (n, h, r).
            parts
            ∙ ap₂ (λ x y. x && y) (window.1 r)
                (ap₂ (λ b e. not b && e) (nil-is_blank t n) ((text_eq_iff sig (o.hmac t ts)).1 h)),
      )
    where
      by_tests :
          (x b e : Bool)
          → x && (not b && e) ≡ true
          → (x ≡ true → IsRecent (s.now / second) (o.parse_int ts))
          → (b ≡ false → t ≢ [])
          → (e ≡ true → sig ≡ o.hmac t ts)
          → (t ≢ []) × (sig ≡ o.hmac t ts) × IsRecent (s.now / second) (o.parse_int ts)
      by_tests true false true h f g k = (g refl, k refl, f refl)
      by_tests true false false h f g k = absurd (cc)
      by_tests true true e h f g k = absurd (cc)
      by_tests false b e h f g k = absurd (cc)

  -- A signature without a colon, a colon, and a recent time, signed with the key of the workspace.
  abbrev pub IsSigned : Bytes → Bytes → ℕ → Type 0
  IsSigned token t now =
      (sig : Bytes) × (ts : Bytes) × (token ≡ sig ++ (58 ∷ ts))
      × (index sig colon ≡ none)
      × (t ≢ [])
      × (sig ≡ o.hmac t ts)
      × IsRecent now (o.parse_int ts)

  -- From a minute after 1970 on, and with the range of `strconv.ParseInt`, a token of the hub opens a
  -- session exactly if it is a signature, a colon, and a time: the workspace has a key for the tunnel,
  -- the signature has no colon and is that of the time's text under this key, and the time is at most
  -- 60 seconds old and at most 5 seconds ahead.
  pub hub_login_iff :
      (token t : Bytes) (s : Server)
      → IsInt64 o.parse_int
      → 60 ≤ s.now / second
      → s.now / second < 2 ^ 62
      → (is_login (hub_login o token t s).0 ≡ true) ↔ IsSigned token t (s.now / second)
  unfolding hub_login check_parts
  hub_login_iff token t s range lo hi = (
    λ e. by_index (is_blank token) (index token colon) refl e,
    λ (sig, ts, p, c, n, h, r). by_parts sig ts p c (n, h, r),
  )
    where
      by_index :
          (b : Bool) (found : Option ℕ)
          → index token colon ≡ found
          → is_login
              (if◌then◌else◌ {A = Reply × Server} b
                (refused 400, s)
                (check_parts o found token t s)).0
            ≡ true
          → IsSigned token t (s.now / second)
      by_index true found l e = absurd (cc)
      by_index false none l e = absurd (cc)
      by_index false (some i) l e =
          let (p, c) = index-split token i l in
          let (n, h, r) =
            (check_signature_iff t (take i token) (drop (suc i) token) s range lo hi).0 e in
          (take i token, drop (suc i) token, p, c, n, h, r)

      by_parts :
          (sig ts : Bytes)
          → token ≡ sig ++ (58 ∷ ts)
          → index sig colon ≡ none
          → (t ≢ []) × (sig ≡ o.hmac t ts) × IsRecent (s.now / second) (o.parse_int ts)
          → is_login (hub_login o token t s).0 ≡ true
      by_parts sig ts p c r =
          rw (p, nonblank-append sig ts, index-append sig ts c)
            (rw (take-length sig (58 ∷ ts), drop-length sig 58 ts)
              ((check_signature_iff t sig ts s range lo hi).1 r))
