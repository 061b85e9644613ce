-- ===== src/Mcp/Injection.antt =====
-- Names of tools that are code.
use altclaw.Common.{
  true, false, List, [], ◌∷◌, ◌++◌, Bytes, codes, ◌==◌, text_eq, reverse, append_assoc, All, ◌≡◌,
  refl, ap, ◌∙◌,
}
use altclaw.Paths.{Components, split, clean_onto, clean_one}
use altclaw.Mcp.{
  Outside, join_path, tools_of, call_code, tool_code, is_within, real, ran, call_tool,
}

-- A text that a path takes for one component, other than "", "." and "..".
abbrev pub IsComponent : Bytes → Type 0
IsComponent x =
    All (λ c. (c == 47) ≡ false) x
    × (text_eq x [] ≡ false)
    × (text_eq x (codes ".") ≡ false)
    × (text_eq x (codes "..") ≡ false)

split-append : (x s : Bytes) → All (λ c. (c == 47) ≡ false) x → split (x ++ (47 ∷ s)) ≡ x ∷ split s
unfolding split
split-append [] s h = refl
split-append (c ∷ x) s h = rw (h.0, split-append x s h.1)

-- Down to a directory, whether it is there or not, and up again.
clean_onto-detour :
    (x s : Bytes) (done : List Bytes)
    → IsComponent x
    → clean_onto done (x ∷ split (codes "../" ++ s)) ≡ clean_onto done (split s)
unfolding clean_onto split text_eq
clean_onto-detour x s done h =
    ap (λ d. clean_onto d (split (codes "../" ++ s))) (pushed (h.1) (h.2) (h.3)) ∙ popped
  where
    pushed :
        text_eq x [] ≡ false
        → text_eq x (codes ".") ≡ false
        → text_eq x (codes "..") ≡ false
        → clean_one done x ≡ x ∷ done
    pushed a b c = rw (a, b, c)

    dots : clean_one (x ∷ done) (codes "..") ≡ done
    dots = refl

    popped : clean_onto (x ∷ done) (split (codes "../" ++ s)) ≡ clean_onto done (split s)
    popped = ap (λ d. clean_onto d (split s)) dots

join_path-detour :
    (dir : Components) (x s : Bytes)
    → IsComponent x
    → join_path dir (x ++ (codes "/../" ++ s)) ≡ join_path dir s
join_path-detour dir x s h =
    ap (clean_onto (reverse dir)) (split-append x (codes "../" ++ s) h.0)
    ∙ clean_onto-detour x s (reverse dir) h

not_blank : (x s : Bytes) → text_eq x [] ≡ false → text_eq (x ++ s) [] ≡ false
unfolding text_eq
not_blank [] s e = absurd (cc)
not_blank (c ∷ x) s e = refl

name-tail :
    (x t : Bytes)
    → ((x ++ (codes "/../" ++ t)) ++ codes ".js") ++ call_code
      ≡ x ++ (codes "/../" ++ (t ++ (codes ".js" ++ call_code)))
name-tail x t =
    ap (λ n. n ++ call_code) (append_assoc x (codes "/../" ++ t) (codes ".js"))
    ∙ append_assoc x (codes "/../" ++ (t ++ codes ".js")) call_code
    ∙ ap (λ n. x ++ (codes "/../" ++ n)) (append_assoc t (codes ".js") call_code)

-- For every tool t of the root namespace and every text x that a path takes for one component, the
-- call of a tool named "x/../t" is accepted, and runs code in which x stands as it is, after an open
-- quote.
pub call_tool-injected :
    (o : Outside) (workspace : Components) (x t arguments : Bytes)
    → IsComponent x
    → text_eq arguments [] ≡ false
    → is_within
        (real o workspace (tools_of workspace))
        (real o workspace (join_path (tools_of workspace) (t ++ codes ".js")))
      ≡ true
    → o.exists (join_path (tools_of workspace) (t ++ codes ".js")) ≡ true
    → call_tool o workspace [] (x ++ (codes "/../" ++ t)) arguments
      ≡ ran o workspace (
          codes "var __params = "
          ++ (arguments
              ++ (codes ";\nvar __fn = require('./.agent/mcp/"
                  ++ (x ++ (codes "/../" ++ (t ++ (codes ".js" ++ call_code)))))))
unfolding call_tool tool_code text_eq
call_tool-injected o workspace x t arguments h a w e =
    let named = append_assoc x (codes "/../" ++ t) (codes ".js") in
    let same : join_path (tools_of workspace) ((x ++ (codes "/../" ++ t)) ++ codes ".js")
        ≡ join_path (tools_of workspace) (t ++ codes ".js") =
      ap (join_path (tools_of workspace)) named
      ∙ join_path-detour (tools_of workspace) x (t ++ codes ".js") h in
    rw (not_blank x (codes "/../" ++ t) h.1, same, w, e, a)
      (ap
        (λ tail. ran o workspace (
          codes "var __params = "
          ++ (arguments ++ (codes ";\nvar __fn = require('./.agent/mcp/" ++ tail))))
        (name-tail x t))
