-- ===== src/Mcp/Jail.antt =====
-- Which code a request can run.
use altclaw.Common.{true, Option, some, [], ◌++◌, Bytes, codes, ◌≡◌, ◌≢◌}
use altclaw.Paths.{Components}
use altclaw.Paths.Real.{IsSettled}
use altclaw.Paths.Within.{IsBelow}
use altclaw.Mcp.{Request, Outside, join_path, tool_dir, tool_code}

module _ (o : Outside) (workspace : Components) where
  -- The name is not empty, and its file is there and lies, with links resolved where they can be, below
  -- the directory of the tools, also with its links resolved.
  abbrev pub HasTool : Bytes → Bytes → Type 0
  HasTool namespace name =
      (name ≢ [])
      × (o.exists (join_path (tool_dir workspace namespace) (name ++ codes ".js")) ≡ true)
      × (p : Components) × IsSettled o.files
          (join_path (tool_dir workspace namespace) (name ++ codes ".js")) p
      × (root : Components) × IsSettled o.files (tool_dir workspace namespace) root
      × IsBelow root p

  -- The parameters of a call, whose text is the code.
  abbrev pub IsCall : Option (Bytes × Bytes) → Bytes → Bytes → Type 0
  IsCall parsed namespace code =
      (name : Bytes) × (arguments : Bytes) × (parsed ≡ some (name, arguments))
      × (code ≡ tool_code namespace name arguments)
      × HasTool namespace name

  -- A request that is a call of a tool.
  abbrev pub IsRequest : Request → Bytes → Bytes → Type 0
  IsRequest r namespace code =
      (r.method ≡ codes "tools/call") × IsCall (o.parse_params r.params) namespace code

  abbrev pub IsChecked : Bytes → Bytes → Bytes → Type 0
  IsChecked input namespace code =
      (r : Request) × (o.parse_request input ≡ some r)
      × (r.jsonrpc ≡ codes "2.0")
      × IsRequest r namespace code
