-- ===== src/Service.antt =====
-- src/main.rs, the router: the routes of the authorization server, the guard in front of the MCP
-- endpoint with the session store behind it, and the sweep at startup, as the requests that can
-- change the database.
pub mod Origin
pub mod Neutral
pub mod Keeps
pub mod Consent
pub mod Tools
pub mod Threads
mod Examples
use local_mcp.Common.{Option, none, some, List, [], ◌∷◌}
use local_mcp.Common.Str.{Str}
use local_mcp.Common.Result.{Result, ok, err}
use local_mcp.Common.{Bool}
use local_mcp.Json.{Json}
use local_mcp.Http.{Response}
use local_mcp.Store.Clock.{SystemTime, Duration}
use local_mcp.Store.Engine.{Db, Act, pure, map_error, ◌>>=◌, ◌>>◌}
use local_mcp.Store
use local_mcp.OAuth.Page.{AuthorizeParams}
use local_mcp.OAuth.{
  Crypto, OAuth, ConsentForm, TokenRequest, register, authorize_form, authorize_submit, token,
}
use local_mcp.Auth.{AuthState, Header, guard}

-- The two settings of `Config` that the router reads.
pub record Settings : Type 0 where
  pub token : Str
  pub public_url : Option Str

-- `config.public_url.as_ref().map(|url| OAuth::new(url.clone(), config.token.clone(), ...))`
abbrev pub offered : Settings → Option OAuth
offered config = elim config.public_url [
  | none ↦ none
  | some url ↦ some (record { issuer = url; consent_secret = config.token })
]

abbrev pub auth_state : Settings → AuthState
auth_state config = record { token = config.token; oauth = offered config }

-- What the transport behind the guard asks of the session store, with the time it asks at.
pub data SessionCall : Type 0 where
  load : SystemTime → Str → SessionCall
  save : SystemTime → Str → Str → SessionCall
  delete : Str → SessionCall

-- A call that fails does not stop the calls after it.
abbrev pub session_call : SessionCall → Db → Db
session_call (load now id) db = (Store.load_session now id db).1
session_call (save now id params) db = (Store.save_session now id params db).1
session_call (delete id) db = (Store.delete_session id db).1

unfoldable pub session_calls : List SessionCall → Act Response Unit
session_calls [] db = (ok tt, db)
session_calls (c ∷ calls) db = session_calls calls (session_call c db)

-- The requests with what their handlers draw: identifiers and times.
pub data Request : Type 0 where
  post_register : Str → Json → Request
  get_authorize : AuthorizeParams → Request
  post_authorize : ConsentForm → Str → SystemTime → Request
  post_token : TokenRequest → Str → SystemTime → SystemTime → Request
  mcp : Header → SystemTime → List SessionCall → Request
  startup_sweep : SystemTime → Duration → Request

-- A route of the authorization server, which is there only where the flow is offered.
abbrev pub route : Option OAuth → (OAuth → Db → Db) → Db → Db
route none handler db = db
route (some oauth) handler db = handler oauth db

-- The database after a request.
unfoldable pub serve : Crypto → (Str → Bool) → Settings → Request → Db → Db
serve crypto parses config (post_register client_id body) db =
    route (offered config) (λ oauth db. (register client_id body db).1) db
serve crypto parses config (get_authorize params) db =
    route (offered config) (λ oauth db. (authorize_form params db).1) db
serve crypto parses config (post_authorize form code now) db =
    route (offered config) (λ oauth db. (authorize_submit crypto oauth form code now db).1) db
serve crypto parses config (post_token request access_token now later) db =
    route (offered config) (λ oauth db. (token crypto request access_token now later db).1) db
serve crypto parses config (mcp authorization now calls) db =
    (guard crypto parses (auth_state config) authorization now (session_calls calls) db).1
serve crypto parses config (startup_sweep now retention) db =
    (Store.sweep_sessions now retention db).1

unfoldable pub serve_all : Crypto → (Str → Bool) → Settings → List Request → Db → Db
serve_all crypto parses config [] db = db
serve_all crypto parses config (r ∷ requests) db =
    serve_all crypto parses config requests (serve crypto parses config r db)
