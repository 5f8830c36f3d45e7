-- ===== src/Http.antt =====
-- What the handlers answer with: the parts of an axum `Response` that the source sets.
use local_mcp.Common.{ℕ, List, []}
use local_mcp.Common.Str.{Str}
use local_mcp.Json.{Json}

pub data Body : Type 0 where
  empty : Body
  text : Str → Body
  html : Str → Body
  json : Json → Body

pub record Response : Type 0 where
  pub status : ℕ
  pub headers : List (Str × Str)
  pub body : Body

abbrev pub success : ℕ
success = 200

abbrev pub found : ℕ
found = 302

abbrev pub bad_request : ℕ
bad_request = 400

abbrev pub unauthorized : ℕ
unauthorized = 401

abbrev pub not_found : ℕ
not_found = 404

abbrev pub internal_server_error : ℕ
internal_server_error = 500

-- A response with a status, no header and this body.
abbrev pub respond : ℕ → Body → Response
respond status body = record { status = status; headers = []; body = body }
