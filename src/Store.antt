-- ===== src/Store.antt =====
-- src/store.rs: the database of registered clients, authorization codes, access tokens and
-- sessions. Each method is a query on `Db`; `now` is what `SystemTime::now()` answers.
pub mod Clock
pub mod Tables
pub mod Engine
pub mod Open
pub mod Codes
pub mod Tokens
pub mod Sessions
pub mod Clients
pub mod Inversion
pub mod Keeps
pub mod Keys
pub mod Calls
pub mod Spec
pub mod Registration
pub mod Refines
pub mod History
mod Examples
use local_mcp.Common.{ℕ, Bool, true, false, Option, none, some, List, [], ◌∷◌}
use local_mcp.Common.Int.{ℤ, pos}
use local_mcp.Common.Str.{Str}
use local_mcp.Common.Result.{is_some, Result, ok, err}
use Clock.{SystemTime, Duration, to_epoch, from_epoch, checked_sub, unwrap_or_epoch}
use Tables.{
  ClientRow, CodeRow, TokenRow, SessionRow, Effect, insert_client, select_redirect_uris,
  insert_code, delete_code_returning, insert_token, delete_expired_tokens, delete_expired_codes,
  select_token, upsert_session, update_session_returning, delete_session_row, delete_idle_sessions,
}
use Engine.{Db, Query, pure, lock, execute, transaction, ◌>>=◌, ◌>>◌}

pub record PendingCode : Type 0 where
  pub client_id : Str
  pub redirect_uri : Str
  pub code_challenge : Str
  pub expires_at : SystemTime

-- The loop of `register_client`.
unfoldable pub insert_uris : Str → List Str → Query Unit
insert_uris client_id [] = pure tt
insert_uris client_id (uri ∷ uris) = do
  execute (insert_client (record { client_id = client_id; redirect_uri = uri }))
  insert_uris client_id uris

unfoldable pub register_client : Str → List Str → Query Unit
register_client client_id redirect_uris = do lock; transaction (insert_uris client_id redirect_uris)

-- `(!uris.is_empty()).then_some(uris)`
abbrev pub some_unless_empty : List Str → Option (List Str)
some_unless_empty [] = none
some_unless_empty (uri ∷ uris) = some (uri ∷ uris)

unfoldable pub redirect_uris : Str → Query (Option (List Str))
redirect_uris client_id = do
  lock
  uris ← execute (select_redirect_uris client_id)
  pure (some_unless_empty uris)

-- The parameters of the statement in `store_code`.
abbrev pub code_row : Str → PendingCode → CodeRow
code_row code pending = record {
  code = code;
  client_id = pending.client_id;
  redirect_uri = pending.redirect_uri;
  code_challenge = pending.code_challenge;
  expires_at = to_epoch pending.expires_at;
}

unfoldable pub store_code : Str → PendingCode → Query Unit
store_code code pending = do lock; execute (insert_code (code_row code pending))

abbrev pub of_code_row : CodeRow → PendingCode
of_code_row r = record {
  client_id = r.client_id;
  redirect_uri = r.redirect_uri;
  code_challenge = r.code_challenge;
  expires_at = from_epoch r.expires_at;
}

abbrev pub map_option : {A B : Type 0} → (A → B) → Option A → Option B
map_option f none = none
map_option f (some a) = some (f a)

unfoldable pub take_code : Str → Query (Option PendingCode)
take_code code = do
  lock
  row ← execute (delete_code_returning code)
  pure (map_option of_code_row row)

unfoldable pub store_token : Str → SystemTime → Query Unit
store_token token expires_at = do
  lock
  execute (insert_token (record { token = token; expires_at = to_epoch expires_at }))

unfoldable pub token_is_valid : SystemTime → Str → Query Bool
token_is_valid now token = do
  lock
  execute (delete_expired_tokens (to_epoch now))
  execute (delete_expired_codes (to_epoch now))
  row ← execute (select_token token)
  pure (is_some row)

unfoldable pub save_session : SystemTime → Str → Str → Query Unit
save_session now session_id initialize_params = do
  lock
  execute (
      upsert_session (record {
        session_id = session_id;
        initialize_params = initialize_params;
        last_seen = to_epoch now;
      }))

abbrev pub params_of : SessionRow → Str
params_of r = r.initialize_params

unfoldable pub load_session : SystemTime → Str → Query (Option Str)
load_session now session_id = do
  lock
  row ← execute (update_session_returning session_id (to_epoch now))
  pure (map_option params_of row)

unfoldable pub delete_session : Str → Query Unit
delete_session session_id = do lock; execute (delete_session_row session_id)

-- `SystemTime::now().checked_sub(retention).unwrap_or(UNIX_EPOCH)`
abbrev pub sweep_cutoff : SystemTime → Duration → SystemTime
sweep_cutoff now retention = unwrap_or_epoch (checked_sub now retention)

unfoldable pub sweep_sessions : SystemTime → Duration → Query ℕ
sweep_sessions now retention = do
  lock
  execute (delete_idle_sessions (to_epoch (sweep_cutoff now retention)))
