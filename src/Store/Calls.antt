-- ===== src/Store/Calls.antt =====
-- The methods of the store as one type of calls: what holds of all of them.
use local_mcp.Common.{List, [], ◌∷◌}
use local_mcp.Common.Str.{Str}
use local_mcp.Common.Eq.{str_Eq, pair_Eq}
use local_mcp.Store.Clock.{SystemTime, Duration}
use local_mcp.Store.Tables.{insert_client}
use local_mcp.Store.Engine.{Db, execute}
use local_mcp.Store
use local_mcp.Store.{PendingCode}
use local_mcp.Store.Keys.{HasKeys, key_rules}
use local_mcp.Store.Keeps.{Keeps, Keeps-bind}

pub data Call : Type 0 where
  register_client : Str → List Str → Call
  redirect_uris : Str → Call
  store_code : Str → PendingCode → Call
  take_code : Str → Call
  store_token : Str → SystemTime → Call
  token_is_valid : SystemTime → Str → Call
  save_session : SystemTime → Str → Str → Call
  load_session : SystemTime → Str → Call
  delete_session : Str → Call
  sweep_sessions : SystemTime → Duration → Call

-- The database after a call, whether it returned or failed.
unfoldable pub run : Call → Db → Db
run (register_client id uris) db = (Store.register_client id uris db).1
run (redirect_uris id) db = (Store.redirect_uris id db).1
run (store_code code pending) db = (Store.store_code code pending db).1
run (take_code code) db = (Store.take_code code db).1
run (store_token token expires_at) db = (Store.store_token token expires_at db).1
run (token_is_valid now token) db = (Store.token_is_valid now token db).1
run (save_session now id params) db = (Store.save_session now id params db).1
run (load_session now id) db = (Store.load_session now id db).1
run (delete_session id) db = (Store.delete_session id db).1
run (sweep_sessions now retention) db = (Store.sweep_sessions now retention db).1

insert_uris-HasKeys : (id : Str) (uris : List Str) → Keeps HasKeys (Store.insert_uris id uris)
unfolding Store.insert_uris
insert_uris-HasKeys id [] = search key_rules
insert_uris-HasKeys id (uri ∷ uris) =
    Keeps-bind (execute (insert_client (record { client_id = id; redirect_uri = uri }))) _
      (search key_rules) λ _. insert_uris-HasKeys id uris

register_client-HasKeys :
    (id : Str) (uris : List Str) → Keeps HasKeys (Store.register_client id uris)
unfolding Store.register_client
register_client-HasKeys id uris = search (key_rules, insert_uris-HasKeys)

redirect_uris-HasKeys : (id : Str) → Keeps HasKeys (Store.redirect_uris id)
unfolding Store.redirect_uris
redirect_uris-HasKeys id = search key_rules

store_code-HasKeys :
    (code : Str) (pending : PendingCode) → Keeps HasKeys (Store.store_code code pending)
unfolding Store.store_code
store_code-HasKeys code pending = search key_rules

take_code-HasKeys : (code : Str) → Keeps HasKeys (Store.take_code code)
unfolding Store.take_code
take_code-HasKeys code = search key_rules

pub store_token-HasKeys :
    (token : Str) (expires_at : SystemTime) → Keeps HasKeys (Store.store_token token expires_at)
unfolding Store.store_token
store_token-HasKeys token expires_at = search key_rules

token_is_valid-HasKeys :
    (now : SystemTime) (token : Str) → Keeps HasKeys (Store.token_is_valid now token)
unfolding Store.token_is_valid
token_is_valid-HasKeys now token = search key_rules depth 9

save_session-HasKeys :
    (now : SystemTime) (id params : Str) → Keeps HasKeys (Store.save_session now id params)
unfolding Store.save_session
save_session-HasKeys now id params = search key_rules

load_session-HasKeys : (now : SystemTime) (id : Str) → Keeps HasKeys (Store.load_session now id)
unfolding Store.load_session
load_session-HasKeys now id = search key_rules

delete_session-HasKeys : (id : Str) → Keeps HasKeys (Store.delete_session id)
unfolding Store.delete_session
delete_session-HasKeys id = search key_rules

sweep_sessions-HasKeys :
    (now : SystemTime) (retention : Duration) → Keeps HasKeys (Store.sweep_sessions now retention)
unfolding Store.sweep_sessions
sweep_sessions-HasKeys now retention = search key_rules

-- Every method of the store, whether it returns or fails and wherever the engine fails, keeps the
-- primary keys of all four tables.
pub run-HasKeys : (c : Call) (db : Db) → HasKeys db.tables → HasKeys (run c db).tables
unfolding run
run-HasKeys (register_client id uris) db k = (register_client-HasKeys id uris).at db k
run-HasKeys (redirect_uris id) db k = (redirect_uris-HasKeys id).at db k
run-HasKeys (store_code code pending) db k = (store_code-HasKeys code pending).at db k
run-HasKeys (take_code code) db k = (take_code-HasKeys code).at db k
run-HasKeys (store_token token expires_at) db k = (store_token-HasKeys token expires_at).at db k
run-HasKeys (token_is_valid now token) db k = (token_is_valid-HasKeys now token).at db k
run-HasKeys (save_session now id params) db k = (save_session-HasKeys now id params).at db k
run-HasKeys (load_session now id) db k = (load_session-HasKeys now id).at db k
run-HasKeys (delete_session id) db k = (delete_session-HasKeys id).at db k
run-HasKeys (sweep_sessions now retention) db k = (sweep_sessions-HasKeys now retention).at db k
