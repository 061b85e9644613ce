-- ===== src/Mcp/Examples.antt =====
-- Requests for the tools of a small workspace.
use altclaw.Common.{
  true, false, none, some, [], ◌∷◌, ◌++◌, Bytes, codes, text_eq, has_prefix, index, any, ◌≡◌, refl,
}
use altclaw.Paths.{Components, resolved, clean_onto, split, rel_text, real_workspace}
use altclaw.Mcp.{
  DirEntry, Outside, tools, failed, invalid_params, tools_of, call_code, is_within, real, join_path,
  ran, call_tool, handle_request,
}
use altclaw.Mcp.Injection.{IsComponent, call_tool-injected}

abbrev ws : Components
ws = codes "w" ∷ []

abbrev entry : Bytes → DirEntry
entry name = record { name = name; is_dir = false }

-- The tool add.js is listed under the name of its comment; the input is the method, and the parameters
-- are the name.
abbrev outside : Outside
outside = record {
  parse_request = λ input. some (record {
    jsonrpc = codes "2.0";
    id = some (codes "1");
    method = input;
    params = codes "add";
  });
  parse_params = λ p. some (p, codes "{}");
  parse_schema = λ s. none;
  files = record {
    eval_symlinks = resolved;
    lines = λ p. none;
    matches = λ p q. false;
    trim_space = λ s. s;
    to_lower = λ s. s;
  };
  exists = any (text_eq (codes "add.js"));
  read_dir = λ p. some (entry (codes "add.js") ∷ entry (codes "note.md") ∷ []);
  read_file = λ p. some (codes "/** @name sum */");
  meta_matches = λ s. (codes "name", codes "sum") ∷ [];
  schema_match = λ s. none;
  trim_space = λ s. s;
  run_module = λ code. (true, codes "3");
}

-- The name of the list is not the one that a call takes.
listed :
    (handle_request outside ws (codes "tools/list") []).0
    ≡ some (record {
      id = some (codes "1");
      answer = tools (record { name = codes "sum"; description = []; input_schema = none } ∷ []);
    })
unfolding handle_request text_eq has_prefix clean_onto split index
listed = refl

by_listed_name : call_tool outside ws [] (codes "sum") (codes "{}") ≡ (failed invalid_params, none)
unfolding call_tool text_eq has_prefix clean_onto split rel_text real_workspace
by_listed_name = refl

abbrev quoted : Bytes
quoted = codes "');e('"

component : IsComponent quoted
unfolding text_eq
component = ((refl, (refl, (refl, (refl, (refl, (refl, tt)))))), refl, refl, refl)

add_within :
    is_within
      (real outside ws (tools_of ws))
      (real outside ws (join_path (tools_of ws) (codes "add.js")))
    ≡ true
unfolding rel_text real_workspace clean_onto split has_prefix text_eq
add_within = refl

add_exists : outside.exists (join_path (tools_of ws) (codes "add.js")) ≡ true
unfolding clean_onto split text_eq
add_exists = refl

some_arguments : text_eq (codes "{}") [] ≡ false
unfolding text_eq
some_arguments = refl

call_tool-injected_example :
    call_tool outside ws [] (quoted ++ (codes "/../" ++ codes "add")) (codes "{}")
    ≡ ran outside ws
        (codes "var __params = {};\nvar __fn = require('./.agent/mcp/');e('/../add.js" ++ call_code)
call_tool-injected_example =
    call_tool-injected outside ws quoted (codes "add") (codes "{}") component some_arguments
      add_within add_exists
