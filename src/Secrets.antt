-- ===== src/Secrets.antt =====
-- internal/config/secret.go and internal/bridge/secret.go: the secrets of a store, and the placeholders
-- that scripts write in place of their values.
pub mod Expand
pub mod Profile
pub mod Sealed
pub mod Examples
use altclaw.Common.{
  ℕ, zero, suc, ◌+◌, ◌-◌, Bool, true, false, Option, none, some, List, [], ◌∷◌, ◌++◌, ◌&&◌, ◌||◌,
  not, Bytes, codes, text_eq, ◌==◌, leb, ltb, if◌then◌else◌, length, take, drop, keep,
}

-- `Secret`
pub record Secret : Type 0 where
  pub id : Bytes
  pub workspace : Bytes
  pub value : Bytes
  pub in_memory : Bool

pub data SaveError : Type 0 where
  profile_provisioned : SaveError
  empty_name : SaveError

abbrev pub is_blank : Bytes → Bool
is_blank [] = true
is_blank (_ ∷ _) = false

-- `BeforeSave`
unfoldable pub before_save : Secret → Option SaveError
before_save sec =
    if sec.in_memory
    then some profile_provisioned
    else if is_blank sec.id
    then some empty_name
    else none

-- `Masked`
unfoldable pub masked : Secret → Secret
masked sec = record sec {
  value =
      if ltb 8 (length sec.value)
      then take 4 sec.value ++ codes "***" ++ drop (length sec.value - 4) sec.value
      else if ltb 4 (length sec.value)
      then take 2 sec.value ++ codes "***"
      else if ltb 0 (length sec.value)
      then codes "***"
      else sec.value;
}

-- The rows of the store, its workspace, and the secrets of its profile.
pub record Store : Type 0 where
  pub rows : List Secret
  pub workspace : Option Bytes
  pub profile : List Secret

abbrev pub is_row : Bytes → Bytes → Secret → Bool
is_row workspace id sec = text_eq sec.workspace workspace && text_eq sec.id id

unfoldable pub find_row : Bytes → Bytes → List Secret → Option Secret
find_row workspace id [] = none
find_row workspace id (sec ∷ rows) =
    if is_row workspace id sec then some sec else find_row workspace id rows

-- `GetSecret`
unfoldable pub get_secret : Store → Bytes → Bytes → Option Secret
unfolding find_row
get_secret s workspace id = find_row workspace id s.rows

-- `ListSecrets`, up to the order of the rows.
unfoldable pub list_secrets : Store → Bytes → List Secret
list_secrets s workspace = s.profile ++ keep (λ sec. text_eq sec.workspace workspace) s.rows

-- `DeleteSecret`
unfoldable pub delete_secret : Bytes → Bytes → Store → Store
delete_secret workspace id s = record s {
  rows = keep (λ sec. not (is_row workspace id sec)) s.rows;
}

unfoldable pub save_checked : Option SaveError → Secret → Store → Option SaveError × Store
unfolding delete_secret
save_checked (some e) sec s = (some e, s)
save_checked none sec s =
    let s' = delete_secret sec.workspace sec.id s in (none, record s' { rows = sec ∷ s'.rows })

-- `SaveSecret`, whose `Put` calls `BeforeSave` and replaces a row of the same name.
unfoldable pub save_secret : Secret → Store → Option SaveError × Store
unfolding save_checked before_save
save_secret sec s = save_checked (before_save sec) sec s

abbrev pub saved : Option SaveError × Store → Bool × Store
saved (none, s) = (true, s)
saved (some e, s) = (false, s)

-- `secret.set`
unfoldable pub set_secret : Bytes → Bytes → Bytes → Store → Bool × Store
unfolding save_secret
set_secret workspace name value s =
    if is_blank workspace
    then (false, s)
    else saved (
        save_secret (record { id = name; workspace = workspace; value = value; in_memory = false })
          s)

abbrev pub placeholder_start : Bytes
placeholder_start = codes "{{secrets."

-- `secret.get`
unfoldable pub placeholder : Bytes → Bytes
placeholder name = placeholder_start ++ name ++ codes "}}"

-- The characters a-z, A-Z, 0-9, _ and -.
abbrev pub is_name_char : ℕ → Bool
is_name_char c =
    (leb 97 c && leb c 122)
    || (leb 65 c && leb c 90)
    || (leb 48 c && leb c 57)
    || (c == 95)
    || (c == 45)

unfoldable pub strip_prefix : Bytes → Bytes → Option Bytes
strip_prefix [] s = some s
strip_prefix (b ∷ p) [] = none
strip_prefix (b ∷ p) (a ∷ s) = if a == b then strip_prefix p s else none

unfoldable pub name_and_rest : Bytes → Bytes × Bytes
name_and_rest [] = ([], [])
name_and_rest (c ∷ s) =
    let (name, rest) = name_and_rest s in if is_name_char c then (c ∷ name, rest) else ([], c ∷ s)

unfoldable pub closed_name : Bytes × Bytes → Option Bytes
unfolding strip_prefix
closed_name ([], rest) = none
closed_name (c ∷ name, rest) = elim (strip_prefix (codes "}}") rest) [
  | none ↦ none
  | some _ ↦ some (c ∷ name)
]

abbrev pub after_start : Option Bytes → Option Bytes
after_start none = none
after_start (some s) = closed_name (name_and_rest s)

-- The name in a match of `secretRegex` that starts here.
unfoldable pub match_here : Bytes → Option Bytes
unfolding strip_prefix name_and_rest closed_name
match_here s = after_start (strip_prefix placeholder_start s)

abbrev pub value_or : Option Secret → Bytes → Bytes
value_or none other = other
value_or (some sec) other = sec.value

unfoldable pub user_value : Store → Bytes → Bytes
unfolding get_secret
user_value s name = value_or (get_secret s [] name) (placeholder name)

-- What a match is replaced with: the workspace's secret, else the user's, else itself.
unfoldable pub resolve : Store → Bytes → Bytes
unfolding user_value
resolve s name = elim s.workspace [
  | none ↦ user_value s name
  | some ws ↦ value_or (get_secret s ws name) (user_value s name)
]

-- The length of a match, less the character it starts with.
abbrev pub tail_length : Bytes → ℕ
tail_length name = length name + 11

-- `ReplaceAllStringFunc`: from left to right; the number is what is left of the last match.
unfoldable pub expand_from : (Bytes → Bytes) → ℕ → Bytes → Bytes
unfolding match_here
expand_from f n [] = []
expand_from f (suc n) (c ∷ s) = expand_from f n s
expand_from f zero (c ∷ s) = elim (match_here (c ∷ s)) [
  | none ↦ c ∷ expand_from f zero s
  | some name ↦ f name ++ expand_from f (tail_length name) s
]

-- `ExpandSecrets`
unfoldable pub expand_secrets : Option Store → Bytes → Bytes
unfolding expand_from resolve
expand_secrets none input = input
expand_secrets (some s) input = expand_from (resolve s) 0 input
