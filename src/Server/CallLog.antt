-- ===== src/Server/CallLog.antt =====
-- src/server.rs: the two lines that `call_tool` puts into the log.
use local_mcp.Common.{ℕ, Bool, true, false, Option, none, some, List, [], ◌∷◌}
use local_mcp.Common.Str.{Str}
use local_mcp.Common.Result.{Result, ok, err}
use local_mcp.Json.{Json, Fields}
use local_mcp.FileTools.Output.{returned, panicked}
use local_mcp.Server.{McpError, CallToolResult, LocalMcp, System, World, Draws, Sdk}
use local_mcp.Server.Log.{arguments, detail}
use local_mcp.Server.Tools.{Outcome, call_tool}

pub data LogLine : Type 0 where
  -- the tool and its arguments
  tool_call : Str → Str → LogLine
  -- the tool, the milliseconds, and what failed
  call_error : Str → ℕ → McpError → LogLine
  call_failed : Str → ℕ → Str → LogLine
  call_done : Str → ℕ → LogLine

-- `result.is_error == Some(true)`
abbrev pub is_failure : CallToolResult → Bool
is_failure result = elim result.is_error [ none ↦ false | some b ↦ b ]

abbrev pub result_line : Str → ℕ → CallToolResult → LogLine
result_line tool elapsed_ms result = elim (is_failure result) [
  | true ↦ call_failed tool elapsed_ms (detail result)
  | false ↦ call_done tool elapsed_ms
]

-- A call that panics does not come to its second line.
abbrev pub outcome_lines : Str → ℕ → Outcome → List LogLine
outcome_lines tool elapsed_ms panicked = []
outcome_lines tool elapsed_ms (returned (err error)) = call_error tool elapsed_ms error ∷ []
outcome_lines tool elapsed_ms (returned (ok result)) = result_line tool elapsed_ms result ∷ []

-- What `call_tool` reads of a request for its log.
pub record Shown (Raw : Type 0) : Type 0 where
  pub name : Raw → Str
  pub arguments : Raw → Option Fields

unfoldable pub logged_call :
    {D Addr Raw E : Type 0}
    → System D
    → LocalMcp Addr
    → Sdk Raw
    → Shown Raw
    → (Json → Result E Str)
    → ℕ
    → Draws
    → Raw
    → World D
    → (Outcome × World D) × List LogLine
logged_call system server sdk shown to_string elapsed_ms draws raw w =
    let (outcome, w') = call_tool system server sdk draws raw w in
    (
      (outcome, w'),
      tool_call (shown.name raw) (arguments to_string (shown.arguments raw))
          ∷ outcome_lines (shown.name raw) elapsed_ms outcome,
    )
