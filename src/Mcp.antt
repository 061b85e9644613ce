-- ===== src/Mcp.antt =====
-- internal/mcp/server.go and internal/mcp/jsonrpc.go: the server of the workspace's tools.
pub mod Jail
pub mod Injection
pub mod Examples
use altclaw.Common.{
  ℕ, Bool, true, false, Option, none, some, List, [], ◌∷◌, ◌++◌, ◌&&◌, ◌||◌, not, Bytes, codes, ◌-◌,
  ◌+◌, text_eq, has_prefix, index, length, take, drop, leb, any, reverse, if◌then◌else◌,
}
use altclaw.Paths
use altclaw.Paths.{Components, split, clean_onto, real_workspace, rel_text}

-- `Request`; the ID is none if there is none.
pub record Request : Type 0 where
  pub jsonrpc : Bytes
  pub id : Option Bytes
  pub method : Bytes
  pub params : Bytes

pub record DirEntry : Type 0 where
  pub name : Bytes
  pub is_dir : Bool

-- The packages json, os and regexp, and `RunModule` of the engine, with a result or an error.
pub record Outside : Type 0 where
  pub parse_request : Bytes → Option Request
  pub parse_params : Bytes → Option (Bytes × Bytes)
  pub parse_schema : Bytes → Option Bytes
  pub files : Paths.Files
  pub exists : Components → Bool
  pub read_dir : Components → Option (List DirEntry)
  pub read_file : Components → Option Bytes
  pub meta_matches : Bytes → List (Bytes × Bytes)
  pub schema_match : Bytes → Option Bytes
  pub trim_space : Bytes → Bytes
  pub run_module : Bytes → Bool × Bytes

-- `ToolDef`; the schema is none for the default one.
pub record ToolDef : Type 0 where
  pub name : Bytes
  pub description : Bytes
  pub input_schema : Option Bytes

pub data Code : Type 0 where
  parse_error : Code
  invalid_request : Code
  method_not_found : Code
  invalid_params : Code

pub data Answer : Type 0 where
  initialized : Bytes → Answer
  pong : Answer
  tools : List ToolDef → Answer
  text : Bytes → Answer
  tool_failed : Bytes → Answer
  failed : Code → Answer

-- An answer with the ID of its request.
pub record Response : Type 0 where
  pub id : Option Bytes
  pub answer : Answer

abbrev pub has_suffix : Bytes → Bytes → Bool
has_suffix s p = leb (length p) (length s) && text_eq (drop (length s - length p) s) p

-- `strings.TrimSuffix`
abbrev trim_suffix : Bytes → Bytes → Bytes
trim_suffix s p = if has_suffix s p then take (length s - length p) s else s

-- `filepath.Join` of an absolute path and a relative one.
abbrev pub join_path : Components → Bytes → Components
join_path dir path = clean_onto (reverse dir) (split path)

abbrev pub tools_of : Components → Components
tools_of workspace = workspace ++ (codes ".agent" ∷ codes "mcp" ∷ [])

-- `toolDir`
abbrev pub tool_dir : Components → Bytes → Components
tool_dir workspace namespace =
    if text_eq namespace [] then tools_of workspace else join_path (tools_of workspace) namespace

-- `toolRequirePath`
abbrev pub require_path : Bytes → Bytes → Bytes
require_path namespace name =
    if text_eq namespace []
    then codes "./.agent/mcp/" ++ (name ++ codes ".js")
    else codes "./.agent/mcp/" ++ (namespace ++ (codes "/" ++ (name ++ codes ".js")))

-- The end of the code that `executeTool` runs.
abbrev pub call_code : Bytes
call_code =
    codes
      "');\nmodule.exports = function() {\n  if (typeof __fn === 'function') {\n    var r = __fn(__params);\n    return typeof r === 'object' ? JSON.stringify(r) : String(r || '');\n  }\n  return '';\n};"

-- The code that `executeTool` runs.
unfoldable pub tool_code : Bytes → Bytes → Bytes → Bytes
tool_code namespace name arguments =
    codes "var __params = "
    ++ ((if text_eq arguments [] then codes "{}" else arguments)
        ++ (codes ";\nvar __fn = require('" ++ (require_path namespace name ++ call_code)))

-- A tool with the names and descriptions of its comment, the last one of each.
abbrev with_meta : Outside → Bytes × Bytes → ToolDef → ToolDef
with_meta o (key, value) t =
    if text_eq key (codes "name")
    then record t { name = o.trim_space value }
    else if text_eq key (codes "description")
    then record t { description = o.trim_space value }
    else t

unfoldable pub with_metas : Outside → List (Bytes × Bytes) → ToolDef → ToolDef
with_metas o [] t = t
with_metas o (m ∷ ms) t = with_metas o ms (with_meta o m t)

abbrev block_to : Option ℕ → Bytes → Bytes
block_to none s = []
block_to (some end) s = take (end + 2) s

-- The block from `/**` to `*/`, or nothing.
abbrev block_of : Option ℕ → Bytes → Bytes
block_of none src = []
block_of (some i) src = block_to (index (drop i src) (codes "*/")) (drop i src)

abbrev has_block : Bytes → Bool
has_block block = not (text_eq block [])

abbrev schema_from : Outside → Option Bytes → Option Bytes
schema_from o none = none
schema_from o (some line) = o.parse_schema line

unfoldable pub tool_def : Outside → Bytes → Bytes → ToolDef
unfolding with_metas
tool_def o file src =
    let block = block_of (index src (codes "/**")) src in
    let metas = if has_block block then o.meta_matches block else [] in
    with_metas o metas (record {
      name = trim_suffix file (codes ".js");
      description = [];
      input_schema = schema_from o (o.schema_match src);
    })

abbrev is_tool : DirEntry → Bool
is_tool e = not e.is_dir && has_suffix e.name (codes ".js")

abbrev and_tool : Outside → Bytes → Option Bytes → List ToolDef → List ToolDef
and_tool o file none rest = rest
and_tool o file (some src) rest = tool_def o file src ∷ rest

unfoldable pub scan_entries : Outside → Components → List DirEntry → List ToolDef
unfolding tool_def
scan_entries o dir [] = []
scan_entries o dir (e ∷ es) =
    let rest = scan_entries o dir es in
    if is_tool e then and_tool o e.name (o.read_file (join_path dir e.name)) rest else rest

abbrev scan_listed : Outside → Components → Option (List DirEntry) → List ToolDef
scan_listed o dir none = []
scan_listed o dir (some es) = scan_entries o dir es

-- `scanTools`
unfoldable pub scan_tools : Outside → Components → Bytes → List ToolDef
unfolding scan_entries
scan_tools o workspace namespace =
    scan_listed o (tool_dir workspace namespace) (o.read_dir (tool_dir workspace namespace))

abbrev holds_tool : Option (List DirEntry) → Bool
holds_tool none = false
holds_tool (some es) = any is_tool es

unfoldable pub with_tools : Outside → Components → List DirEntry → List Bytes
with_tools o dir [] = []
with_tools o dir (e ∷ es) =
    let rest = with_tools o dir es in
    if e.is_dir && holds_tool (o.read_dir (join_path dir e.name)) then e.name ∷ rest else rest

abbrev namespaces_in : Outside → Components → Option (List DirEntry) → List Bytes
namespaces_in o dir none = []
namespaces_in o dir (some es) = with_tools o dir es

-- `ListNamespaces`
unfoldable pub list_namespaces : Outside → Components → List Bytes
unfolding with_tools
list_namespaces o workspace = namespaces_in o (tools_of workspace) (o.read_dir (tools_of workspace))

abbrev pub is_within : Components → Components → Bool
is_within root p = not (has_prefix (rel_text root p) (codes ".."))

-- The answer to a call with the code that was run.
abbrev pub settled : Bytes → Bool × Bytes → Answer × Option Bytes
settled code (true, result) = (text result, some code)
settled code (false, error) = (tool_failed error, some code)

abbrev pub answered : Request → Answer × Option Bytes → Option Response × Option Bytes
answered r (a, code) = (some (record { id = r.id; answer = a }), code)

module _ (o : Outside) (workspace : Components) where
  -- `filepath.EvalSymlinks`, or the path as it is.
  abbrev pub real : Components → Components
  real = real_workspace o.files

  abbrev pub ran : Bytes → Answer × Option Bytes
  ran code = settled code (o.run_module code)

  unfoldable pub call_tool : Bytes → Bytes → Bytes → Answer × Option Bytes
  unfolding tool_code
  call_tool namespace name arguments =
      let dir = tool_dir workspace namespace in
      let file = join_path dir (name ++ codes ".js") in
      if text_eq name []
      then (failed invalid_params, none)
      else if not (is_within (real dir) (real file))
      then (failed invalid_params, none)
      else if not (o.exists file)
      then (failed invalid_params, none)
      else ran (tool_code namespace name arguments)

  unfoldable pub call_parsed : Option (Bytes × Bytes) → Bytes → Answer × Option Bytes
  unfolding call_tool
  call_parsed none namespace = (failed invalid_params, none)
  call_parsed (some (name, arguments)) namespace = call_tool namespace name arguments

  -- The switch on the method; the code that was run comes beside the response.
  unfoldable pub handle_method : Request → Bytes → Option Response × Option Bytes
  unfolding call_parsed scan_tools
  handle_method r namespace =
      if text_eq r.method (codes "initialize")
      then answered r (initialized namespace, none)
      else if text_eq r.method (codes "notifications/initialized")
      then (none, none)
      else if text_eq r.method (codes "ping")
      then answered r (pong, none)
      else if text_eq r.method (codes "tools/list")
      then answered r (tools (scan_tools o workspace namespace), none)
      else if text_eq r.method (codes "tools/call")
      then answered r (call_parsed (o.parse_params r.params) namespace)
      else answered r (failed method_not_found, none)

  unfoldable pub handle_parsed : Option Request → Bytes → Option Response × Option Bytes
  unfolding handle_method
  handle_parsed none namespace = (some (record { id = none; answer = failed parse_error }), none)
  handle_parsed (some r) namespace =
      if text_eq r.jsonrpc (codes "2.0")
      then handle_method r namespace
      else answered r (failed invalid_request, none)

  -- `HandleRequest`
  unfoldable pub handle_request : Bytes → Bytes → Option Response × Option Bytes
  unfolding handle_parsed
  handle_request input namespace = handle_parsed (o.parse_request input) namespace
