-- ===== src/Paths/Examples.antt =====
-- Paths and the gate at concrete inputs.
use altclaw.Common.{
  ◌&&◌, true, false, none, some, [], ◌∷◌, ◌++◌, Bytes, codes, text_eq, has_prefix, contains, any,
  All, if◌then◌else◌, ◌↔◌, ◌⊎◌, ◌≡◌, refl,
}
use altclaw.Settings.{CommonSettings}
use altclaw.Paths.{GateSettings}
use altclaw.Common.{◌⊎◌}
use altclaw.Paths.{
  Components, Resolved, resolved, missing, Files, within, escapes, sanitize_path, is_hidden,
  granted, rejected, Question, check_restricted,
}
use altclaw.Paths.Real.{led_to, IsSettled, IsReal}
use altclaw.Paths.Within.{IsBelow, sanitize_path_iff}
use altclaw.Paths.Gate.{IsShown, IsUngated, IsUnlisted, check_restricted-granted_iff}

abbrev ws : Components
ws = codes "home" ∷ codes "w" ∷ []

-- The link /home/w/out points to /etc; a.txt is a file; new is not there yet.
abbrev small_files : Files
small_files = record {
  eval_symlinks = eval;
  lines = λ p. if any (text_eq (codes ".gitignore")) p then some (codes "*.log" ∷ []) else none;
  matches = λ pattern name. text_eq pattern (codes "*.log") && text_eq name (codes "x.log");
  trim_space = λ s. s;
  to_lower = λ s. s;
}
  where
    eval : Components → Resolved
    eval p =
        if any (text_eq (codes "new")) p
        then missing
        else if any (text_eq (codes "out")) p
        then resolved (codes "etc" ∷ [])
        else resolved p

inside :
    sanitize_path small_files ws (codes "./b/../a.txt")
    ≡ within (codes "home" ∷ codes "w" ∷ codes "a.txt" ∷ [])
unfolding sanitize_path text_eq has_prefix
inside = refl

to_be_made :
    sanitize_path small_files ws (codes "d/new")
    ≡ within (codes "home" ∷ codes "w" ∷ codes "d" ∷ codes "new" ∷ [])
unfolding sanitize_path text_eq has_prefix
to_be_made = refl

above : sanitize_path small_files ws (codes "../../etc/passwd") ≡ escapes
unfolding sanitize_path text_eq has_prefix
above = refl

linked : sanitize_path small_files ws (codes "out") ≡ escapes
unfolding sanitize_path text_eq has_prefix
linked = refl

-- A file of the workspace whose name begins with two dots is refused.
dots_in_name : sanitize_path small_files ws (codes "..foo") ≡ escapes
unfolding sanitize_path text_eq has_prefix
dots_in_name = refl

-- Two levels that are not there below a link out of the workspace: the link stays unresolved.
below_link :
    sanitize_path small_files ws (codes "out/new/new")
    ≡ within (codes "home" ∷ codes "w" ∷ codes "out" ∷ codes "new" ∷ codes "new" ∷ [])
unfolding sanitize_path text_eq has_prefix
below_link = refl

sanitize_path_iff_example :
    (sanitize_path small_files ws (codes "a.txt")
      ≡ within (codes "home" ∷ codes "w" ∷ codes "a.txt" ∷ []))
    ↔ (IsReal small_files
          (led_to ws (codes "a.txt"))
          (codes "home" ∷ codes "w" ∷ codes "a.txt" ∷ [])
        × (root : Components) × IsSettled small_files ws root
        × IsBelow root (codes "home" ∷ codes "w" ∷ codes "a.txt" ∷ []))
sanitize_path_iff_example =
    sanitize_path_iff small_files ws (codes "a.txt") (codes "home" ∷ codes "w" ∷ codes "a.txt" ∷ [])

abbrev says_no : Question → Bytes
says_no q = codes "no"

-- The gate with settings that leave it on.
abbrev gate_on : GateSettings
gate_on = record { ws = some plain_settings; has_handler = true; store = none }
  where
    plain_settings : CommonSettings
    plain_settings = record {
      rate_limit = 0;
      daily_prompt_cap = 0;
      daily_completion_cap = 0;
      message_window = 0;
      ignore_restricted = false;
      ip_whitelist = [];
    }

check_restricted-granted_iff_example :
    (check_restricted small_files says_no gate_on ws
        (ws ++ codes "d" ∷ codes "a.txt" ∷ [])
        (codes "read")
      ≡ granted)
    ↔ (IsUngated gate_on
        ⊎ (All IsShown (codes "d" ∷ codes "a.txt" ∷ [])
            × IsUnlisted small_files ws (codes "d" ∷ codes "a.txt" ∷ [])))
check_restricted-granted_iff_example =
    check_restricted-granted_iff small_files says_no gate_on ws (codes "d" ∷ codes "a.txt" ∷ [])
      (codes "read") refl

hidden_refused :
    check_restricted small_files says_no gate_on ws (ws ++ codes ".env" ∷ []) (codes "read")
    ≡ rejected
unfolding check_restricted text_eq has_prefix
hidden_refused = refl

ignored_refused :
    check_restricted small_files says_no gate_on ws (ws ++ codes "x.log" ∷ []) (codes "read")
    ≡ rejected
unfolding check_restricted text_eq has_prefix contains
ignored_refused = refl

-- With a workspace that is reached through a link, the real path of each of its files counts as hidden.
linked_workspace :
    is_hidden (codes "link" ∷ []) (codes "home" ∷ codes "w" ∷ codes "a.txt" ∷ []) ≡ true
unfolding is_hidden text_eq has_prefix
linked_workspace = refl
