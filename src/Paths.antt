-- ===== src/Paths.antt =====
-- internal/bridge/path.go, internal/bridge/pathcheck.go and internal/util/approval.go: which files of the
-- workspace a script may reach, and for which of them the user is asked.
pub mod Real
pub mod Within
pub mod Gate
pub mod Examples
use altclaw.Common.{
  ℕ, zero, suc, ◌+◌, Bool, true, false, Option, none, some, List, [], ◌∷◌, ◌++◌, ◌&&◌, ◌||◌, not,
  Bytes, codes, text_eq, has_prefix, contains, drop, any, map, reverse, ◌==◌, if◌then◌else◌,
}
use altclaw.Settings.{CommonSettings, SettingsResolver, ignore_restricted}

-- An absolute path without `.` and `..`, as its components.
abbrev pub Components : Type 0
Components = List Bytes

-- What `filepath.EvalSymlinks` says of a path.
pub data Resolved : Type 0 where
  resolved : Components → Resolved
  missing : Resolved
  unreadable : Resolved

-- The files, and what the program uses of the packages strings and doublestar.
pub record Files : Type 0 where
  pub eval_symlinks : Components → Resolved
  pub lines : Components → Option (List Bytes)
  pub matches : Bytes → Bytes → Bool
  pub trim_space : Bytes → Bytes
  pub to_lower : Bytes → Bytes

abbrev pub cons_head : ℕ → List Bytes → List Bytes
cons_head c [] = (c ∷ []) ∷ []
cons_head c (s ∷ ss) = (c ∷ s) ∷ ss

-- `strings.Split s "/"`
unfoldable pub split : Bytes → List Bytes
split [] = [] ∷ []
split (c ∷ s) = let rest = split s in if c == 47 then [] ∷ rest else cons_head c rest

-- `strings.Join parts "/"`
unfoldable pub join : List Bytes → Bytes
join [] = []
join (p ∷ []) = p
join (p ∷ q ∷ ps) = p ++ (47 ∷ join (q ∷ ps))

abbrev pub pop : List Bytes → List Bytes
pop [] = []
pop (_ ∷ ps) = ps

-- One component of `filepath.Clean`, on those before it in reverse.
abbrev pub clean_one : List Bytes → Bytes → List Bytes
clean_one done p =
    if text_eq p [] || text_eq p (codes ".")
    then done
    else if text_eq p (codes "..")
    then pop done
    else p ∷ done

unfoldable pub clean_onto : List Bytes → List Bytes → Components
clean_onto done [] = reverse done
clean_onto done (p ∷ ps) = clean_onto (clean_one done p) ps

unfoldable pub absolute : Components → Bytes → Components
unfolding clean_onto split
absolute workspace path =
    if has_prefix path (codes "/")
    then clean_onto [] (split path)
    else clean_onto (reverse workspace) (split path)

-- `filepath.Dir` and `filepath.Base`; the root has no last component.
abbrev pub parent : Components → Components
parent [] = []
parent (p ∷ []) = []
parent (p ∷ q ∷ ps) = p ∷ parent (q ∷ ps)

abbrev pub base : Components → Components
base [] = []
base (p ∷ []) = p ∷ []
base (p ∷ q ∷ ps) = base (q ∷ ps)

abbrev pub beside : Resolved → Components → Option Components
beside (resolved p) path = some (p ++ base path)
beside missing path = some path
beside unreadable path = none

module _ (f : Files) where
  abbrev pub resolve_new : Resolved → Components → Option Components
  resolve_new (resolved p) path = some p
  resolve_new missing path = beside (f.eval_symlinks (parent path)) path
  resolve_new unreadable path = none

  unfoldable pub real_path : Components → Option Components
  real_path path = resolve_new (f.eval_symlinks path) path

  abbrev resolved_or : Resolved → Components → Components
  resolved_or (resolved p) path = p
  resolved_or missing path = path
  resolved_or unreadable path = path

  unfoldable pub real_workspace : Components → Components
  real_workspace workspace = resolved_or (f.eval_symlinks workspace) workspace

-- `filepath.Rel` of two absolute paths.
unfoldable pub rel : Components → Components → List Bytes
rel [] target = target
rel (b ∷ from) [] = map (λ _. codes "..") (b ∷ from)
rel (b ∷ from) (t ∷ target) =
    if text_eq b t then rel from target else map (λ _. codes "..") (b ∷ from) ++ t ∷ target

abbrev pub dot_or : List Bytes → Bytes
dot_or [] = codes "."
dot_or (p ∷ ps) = join (p ∷ ps)

unfoldable pub rel_text : Components → Components → Bytes
unfolding rel join
rel_text from target = dot_or (rel from target)

pub data Sanitized : Type 0 where
  within : Components → Sanitized
  invalid : Sanitized
  escapes : Sanitized

unfoldable pub check_within : Components → Option Components → Sanitized
unfolding rel_text
check_within root none = invalid
check_within root (some real) =
    if has_prefix (rel_text root real) (codes "..") then escapes else within real

-- `SanitizePath`
unfoldable pub sanitize_path : Files → Components → Bytes → Sanitized
unfolding check_within absolute real_path real_workspace
sanitize_path f workspace path =
    check_within (real_workspace f workspace) (real_path f (absolute workspace path))

-- A component that is hidden.
abbrev pub is_dotted : Bytes → Bool
is_dotted part =
    has_prefix part (codes ".")
    && not (text_eq part (codes "."))
    && not (text_eq part (codes ".agent"))

-- `IsHidden`
unfoldable pub is_hidden : Components → Components → Bool
unfolding rel_text split
is_hidden workspace path = any is_dotted (split (rel_text workspace path))

abbrev pub trim_slash : Bytes → Bytes
trim_slash p = if has_prefix p (codes "/") then drop 1 p else p

abbrev pub base_name : List Bytes → Bytes
base_name [] = codes "."
base_name (p ∷ []) = p
base_name (p ∷ q ∷ ps) = base_name (q ∷ ps)

module _ (f : Files) where
  abbrev pub is_comment : Bytes → Bool
  is_comment line = text_eq line [] || has_prefix line (codes "#")

  unfoldable pub matches_line : Bytes → List Bytes → Bool
  matches_line line path =
      if is_comment line
      then false
      else if contains line (codes "/")
      then f.matches (trim_slash line) (dot_or path)
      else f.matches line (base_name path) || f.matches (codes "**/" ++ line) (dot_or path)

  unfoldable pub matches_lines : Option (List Bytes) → List Bytes → Bool
  unfolding matches_line
  matches_lines none path = false
  matches_lines (some ls) path = any (λ line. matches_line (f.trim_space line) path) ls

  -- `IsIgnored`
  unfoldable pub is_ignored : Components → Components → Bool
  unfolding matches_lines rel
  is_ignored workspace path =
      any (λ name. matches_lines (f.lines (workspace ++ name ∷ [])) (rel workspace path))
        (codes ".gitignore" ∷ codes ".agentignore" ∷ [])

  -- `IsApproved`
  unfoldable pub is_approved : Bytes → Bool
  is_approved answer =
      let v = f.trim_space (f.to_lower answer) in
      text_eq v (codes "yes") || text_eq v (codes "y") || text_eq v (codes "approve")

pub data Access : Type 0 where
  granted : Access
  approved : Access
  rejected : Access

-- Why the user is asked.
pub data Reason : Type 0 where
  hidden_file : Reason
  ignored_file : Reason

-- A question to the user: the operation, the relative path and the reason.
abbrev pub Question : Type 0
Question = Bytes × Bytes × Reason

-- What the gate depends on: the workspace and the handler (`none` and `false` for nil), and the settings
-- of the store if there is one.
pub record GateSettings : Type 0 where
  pub ws : Option CommonSettings
  pub has_handler : Bool
  pub store : Option SettingsResolver

abbrev pub gate_ignores : Option SettingsResolver → CommonSettings → Bool
gate_ignores none ws = ws.ignore_restricted
gate_ignores (some r) ws = ignore_restricted r

abbrev pub gate_is_off_for : Option CommonSettings → GateSettings → Bool
gate_is_off_for none g = true
gate_is_off_for (some ws) g = not g.has_handler || gate_ignores g.store ws

abbrev pub gate_is_off : GateSettings → Bool
gate_is_off g = gate_is_off_for g.ws g

module _ (f : Files) (ask : Question → Bytes) where
  abbrev pub reason : Bool → Bool → Option Reason
  reason true ignored = some hidden_file
  reason false true = some ignored_file
  reason false false = none

  unfoldable pub ask_for : Option Reason → Bytes → Bytes → Access
  unfolding is_approved
  ask_for none op path = granted
  ask_for (some r) op path = if is_approved f (ask (op, path, r)) then approved else rejected

  -- `CheckRestricted`
  unfoldable pub check_restricted : GateSettings → Components → Components → Bytes → Access
  unfolding ask_for is_hidden is_ignored
  check_restricted g workspace path op =
      if gate_is_off g
      then granted
      else ask_for (reason (is_hidden workspace path) (is_ignored f workspace path)) op
          (rel_text workspace path)
