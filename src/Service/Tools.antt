-- ===== src/Service/Tools.antt =====
-- src/main.rs: the MCP endpoint, with the guard in front of the tools.
use local_mcp.Common.{◌≡◌, ap, ◌⊎◌, inl, inr, Bool, some, List, [], ◌++◌}
use local_mcp.Common.Str.{Str, bytes, trim}
use local_mcp.Common.Result.{Result, ok, err, Result-cases}
use local_mcp.Config.{Config}
use local_mcp.Http.{Response}
use local_mcp.Store.Clock.{SystemTime}
use local_mcp.Store.Engine.{Db}
use local_mcp.OAuth.{Crypto}
use local_mcp.OAuth.Consent.{IsConstantTimeEq}
use local_mcp.Auth.{Header, guard}
use local_mcp.Server.{System, World, Draws, Sdk, new}
use local_mcp.Server.Tools.{Outcome, call_tool}
use local_mcp.Server.Touches.{Touches, call_tool-Touches}
use local_mcp.Service.{Settings, auth_state, SessionCall, session_calls}
use local_mcp.Service.Threads.{Running, Event, interleave, arrivals}
use local_mcp.Service.Threads.Admission.{guard-interleave}
use local_mcp.Service.Consent.{Entitled}

abbrev pub settings : {Addr : Type 0} → Config Addr → Settings
settings config = record { token = config.token; public_url = config.public_url }

-- What runs behind the guard's answer: the call, by a server that is new for the session.
abbrev pub admitted :
    {D Addr Raw : Type 0}
    → System D
    → Config Addr
    → Sdk Raw
    → Draws
    → Raw
    → Result Response (Unit {0})
    → World D
    → Result Response Outcome × World D
admitted system config sdk draws raw (err response) w = (err response, w)
admitted system config sdk draws raw (ok _) w =
    let (outcome, w') = call_tool system (new config) sdk draws raw w in (ok outcome, w')

-- A tool call over HTTP: the guard, what the transport asks of the session store, and the call.
unfoldable pub post_tool_call :
    {D Addr Raw : Type 0}
    → Crypto
    → (Str → Bool)
    → Config Addr
    → System D
    → Sdk Raw
    → Header
    → SystemTime
    → List SessionCall
    → Draws
    → Raw
    → Db
    → World D
    → (Result Response Outcome × World D) × Db
post_tool_call crypto parses config system sdk authorization now calls draws raw db w =
    let (r, db') =
      guard crypto parses (auth_state (settings config)) authorization now (session_calls calls)
        db in
    (admitted system config sdk draws raw r w, db')

-- With a comparison that answers equality, however the requests before it interleave and wherever the
-- process is restarted, and when no request is under way and no code and no token is stored at the
-- start: a tool call leaves the disk, the job table and all processes alone, or it carried the
-- configured token or an unexpired one that stems from a consent form with the configured token; and
-- then the server itself has touched the disk only in files inside the root and their parent
-- directories. The commands that it runs are not confined, and what they write is not counted here.
pub post_tool_call-Touches :
    {D Addr Raw : Type 0} (crypto : Crypto) (parses : Str → Bool) (config : Config Addr)
    (law : IsConstantTimeEq crypto) (events : List Event) (start : Running) (system : System D)
    (sdk : Sdk Raw) (authorization : Header) (now : SystemTime) (calls : List SessionCall)
    (draws : Draws) (raw : Raw) (w : World D)
    → start.threads ≡ []
    → start.db.codes ≡ []
    → start.db.tokens ≡ []
    → let left : World D =
        (post_tool_call crypto parses config system sdk authorization now calls draws raw
          (interleave crypto parses (settings config) events start).db
          w).0.1 in
      (left ≡ w)
      ⊎ ((presented : Str) × (authorization ≡ some (bytes "Bearer " ++ presented))
          × ((trim presented ≡ config.token)
              ⊎ Entitled crypto (settings config) (arrivals events) now (trim presented))
          × Touches system.os config.root w.disk left.disk)
unfolding post_tool_call new
post_tool_call-Touches crypto parses config law events start system sdk authorization now calls
      draws raw w idle no_codes no_tokens =
    let db : Db = (interleave crypto parses (settings config) events start).db in
    elim (Result-cases
      (guard crypto parses (auth_state (settings config)) authorization now (session_calls calls)
        db).0) [
          | inr (response, refused) ↦ inl (
              ap (λ (r : Result Response (Unit {0})). (admitted system config sdk draws raw r w).1)
                refused)
          | inl (a, passed) ↦
              let (presented, bearer, reason) =
                guard-interleave crypto parses (settings config) law events start idle no_codes
                  no_tokens authorization now (session_calls calls) a passed in
              inr (
                presented,
                bearer,
                reason,
                rw passed (call_tool-Touches system (new config) sdk draws raw w),
              )
        ]
