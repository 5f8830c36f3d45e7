-- ===== src/Sessions.antt =====
-- src/sessions.rs: the session store that the transport reads a forgotten handshake from. The
-- handshake's type `P` is the SDK's, and so is its coding as JSON.
pub mod Laws
mod Examples
use local_mcp.Common.{Option, none, some}
use local_mcp.Common.Str.{Str}
use local_mcp.Common.Result.{Result, ok, err, ok_or}
use local_mcp.Store.Clock.{SystemTime}
use local_mcp.Store.Tables.{DbError}
use local_mcp.Store.Engine.{Act, pure, lift, map_error, ◌>>=◌}
use local_mcp.Store

-- `serde_json` on the handshake; `none` stands for its error.
pub record Serde (P : Type 0) : Type 0 where
  pub to_string : P → Option Str
  pub from_str : Str → Option P

pub data SessionStoreError : Type 0 where
  database : DbError → SessionStoreError
  json : SessionStoreError

-- The rest of `load` behind the database.
abbrev pub decode_found : {P : Type 0} → Serde P → Option Str → Act SessionStoreError (Option P)
decode_found serde none = pure none
decode_found serde (some params) = do
  state ← lift (ok_or json (serde.from_str params))
  pure (some state)

unfoldable pub load : {P : Type 0} → Serde P → SystemTime → Str → Act SessionStoreError (Option P)
load serde now session_id = do
  params ← map_error database (Store.load_session now session_id)
  decode_found serde params

unfoldable pub store : {P : Type 0} → Serde P → SystemTime → Str → P → Act SessionStoreError Unit
store serde now session_id state = do
  params ← lift (ok_or json (serde.to_string state))
  map_error database (Store.save_session now session_id params)

unfoldable pub delete : Str → Act SessionStoreError Unit
delete session_id = map_error database (Store.delete_session session_id)
