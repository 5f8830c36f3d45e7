-- ===== src/Service/Neutral.antt =====
-- What a predicate on the tables must bear for all requests to keep it that write no code and no
-- token, and that they do.
use local_mcp.Common.{
  sym, Bool, true, false, not, ◌||◌, Option, none, some, List, [], ◌∷◌, subst, if◌then◌else◌,
}
use local_mcp.Common.Str.{Str, bytes, str_eq, is_empty, trim}
use local_mcp.Common.Eq.{str_Eq}
use local_mcp.Http.{Response}
use local_mcp.Common.Int.{ℤ}
use local_mcp.Table.{delete_where}
use local_mcp.Store.Clock.{SystemTime, Duration}
use local_mcp.Store.Tables.{
  Tables, ClientRow, CodeRow, TokenRow, SessionRow, insert_client, select_redirect_uris,
  delete_expired_tokens, delete_expired_codes, select_token, upsert_session,
  update_session_returning, delete_session_row, delete_idle_sessions,
}
use local_mcp.Store.Engine.{Db, Act, execute, lift}
use local_mcp.Store
use local_mcp.Store.Keeps.{Keeps, KeepsEffect, Keeps-bind, Keeps-lift, Keeps-pure, keeps_rules}
use local_mcp.Store.Inversion.{IsQuiet}
use local_mcp.OAuth.Page.{AuthorizeParams}
use local_mcp.OAuth.{Crypto, OAuth, register_uris, authorize_form, token, validate_client}
use local_mcp.OAuth.Consent.{validate_client-IsQuiet}
use local_mcp.Auth.{AuthState, Header, guard, accepted, oauth_accepts, token_matches}
use local_mcp.Service.{SessionCall, load, save, delete, session_call, session_calls}

-- Other tables may change, and codes and tokens may go where they expire.
pub record Neutral (P : Tables → Type 0) : Type 0 where
  pub clients : (t : Tables) (rows : List ClientRow) → P t → P (record t { clients = rows })
  pub sessions : (t : Tables) (rows : List SessionRow) → P t → P (record t { sessions = rows })
  pub fewer_codes :
      (t : Tables) (stale : CodeRow → Bool)
      → P t
      → P (record t { codes = delete_where stale t.codes })
  pub fewer_tokens :
      (t : Tables) (stale : TokenRow → Bool)
      → P t
      → P (record t { tokens = delete_where stale t.tokens })

module _ {P : Tables → Type 0} (neutral : Neutral P) where
  insert_client-P : (r : ClientRow) → KeepsEffect P (insert_client r)
  unfolding insert_client
  insert_client-P r = record { after = λ t h. neutral.clients t _ h }

  select_redirect_uris-P : (id : Str) → KeepsEffect P (select_redirect_uris id)
  unfolding select_redirect_uris
  select_redirect_uris-P id = record { after = λ t h. h }

  select_token-P : (token : Str) → KeepsEffect P (select_token token)
  unfolding select_token
  select_token-P token = record { after = λ t h. h }

  delete_expired_tokens-P : (now : ℤ) → KeepsEffect P (delete_expired_tokens now)
  unfolding delete_expired_tokens
  delete_expired_tokens-P now = record { after = λ t h. neutral.fewer_tokens t _ h }

  delete_expired_codes-P : (now : ℤ) → KeepsEffect P (delete_expired_codes now)
  unfolding delete_expired_codes
  delete_expired_codes-P now = record { after = λ t h. neutral.fewer_codes t _ h }

  upsert_session-P : (r : SessionRow) → KeepsEffect P (upsert_session r)
  unfolding upsert_session
  upsert_session-P r = record { after = λ t h. neutral.sessions t _ h }

  update_session_returning-P :
      (id : Str) (now : ℤ) → KeepsEffect P (update_session_returning id now)
  unfolding update_session_returning
  update_session_returning-P id now = record { after = λ t h. neutral.sessions t _ h }

  delete_session_row-P : (id : Str) → KeepsEffect P (delete_session_row id)
  unfolding delete_session_row
  delete_session_row-P id = record { after = λ t h. neutral.sessions t _ h }

  delete_idle_sessions-P : (cutoff : ℤ) → KeepsEffect P (delete_idle_sessions cutoff)
  unfolding delete_idle_sessions
  delete_idle_sessions-P cutoff = record { after = λ t h. neutral.sessions t _ h }

  pub insert_uris-P : (id : Str) (uris : List Str) → Keeps P (Store.insert_uris id uris)
  unfolding Store.insert_uris
  insert_uris-P id [] = search keeps_rules
  insert_uris-P id (uri ∷ uris) =
      Keeps-bind (execute (insert_client (record { client_id = id; redirect_uri = uri }))) _
        (search (keeps_rules, insert_client-P)) λ _. insert_uris-P id uris

  pub register_client-P : (id : Str) (uris : List Str) → Keeps P (Store.register_client id uris)
  unfolding Store.register_client
  register_client-P id uris = search (keeps_rules, insert_uris-P)

  pub register_uris-P : (id : Str) (uris : List Str) → Keeps P (register_uris id uris)
  unfolding register_uris
  register_uris-P id [] = search keeps_rules
  register_uris-P id (uri ∷ uris) = search (keeps_rules, register_client-P)

  pub token_is_valid-P : (now : SystemTime) (token : Str) → Keeps P (Store.token_is_valid now token)
  unfolding Store.token_is_valid
  token_is_valid-P now token =
      search (keeps_rules, delete_expired_tokens-P, delete_expired_codes-P, select_token-P) depth 9

  pub Keeps-of_quiet : {A : Type 0} (m : Act Response A) → IsQuiet m → Keeps P m
  Keeps-of_quiet m q = record { at = λ db h. subst P (sym (q.at db)) h }

  pub Keeps-if :
      {A : Type 0} (b : Bool) (m n : Act Response A)
      → Keeps P m
      → Keeps P n
      → Keeps P (if b then m else n)
  Keeps-if true m n km kn = km
  Keeps-if false m n km kn = kn

  pub authorize_form-P : (params : AuthorizeParams) → Keeps P (authorize_form params)
  unfolding authorize_form
  authorize_form-P params =
      Keeps-bind (validate_client params.client_id params.redirect_uri) _
        (Keeps-of_quiet _ (validate_client-IsQuiet params.client_id params.redirect_uri))
        λ _.
          Keeps-if
            (not (str_eq params.code_challenge_method (bytes "S256"))
              || is_empty params.code_challenge)
            _ _ (Keeps-lift _) (Keeps-pure _)

  -- What stands behind the guard.
  pub session_call-P : (c : SessionCall) (db : Db) → P db.tables → P (session_call c db).tables
  unfolding Store.load_session Store.save_session Store.delete_session
  session_call-P (load now id) =
      let k : Keeps P (Store.load_session now id) =
        search (keeps_rules, update_session_returning-P) in
      k.at
  session_call-P (save now id params) =
      let k : Keeps P (Store.save_session now id params) = search (keeps_rules, upsert_session-P) in
      k.at
  session_call-P (delete id) =
      let k : Keeps P (Store.delete_session id) = search (keeps_rules, delete_session_row-P) in k.at

  pub session_calls-P :
      (calls : List SessionCall) (db : Db) → P db.tables → P (session_calls calls db).1.tables
  unfolding session_calls
  session_calls-P [] db h = h
  session_calls-P (c ∷ calls) db h =
      session_calls-P calls (session_call c db) (session_call-P c db h)

  pub oauth_accepts-P :
      (o : Option OAuth) (now : SystemTime) (s : Str) → Keeps P (oauth_accepts o now s)
  unfolding oauth_accepts
  oauth_accepts-P none now s = record { at = λ db h. h }
  oauth_accepts-P (some oauth) now s = record { at = (token_is_valid-P now s).at }

  pub accepted-P :
      (crypto : Crypto) (state : AuthState) (now : SystemTime) (s : Str)
      → Keeps P (accepted crypto state now s)
  unfolding accepted
  accepted-P crypto state now s =
      Keeps-if (token_matches crypto state.token s) _ _ (Keeps-pure true)
        (oauth_accepts-P state.oauth now s)

  pub guard-P :
      (crypto : Crypto) (parses : Str → Bool) (state : AuthState) (authorization : Header)
      (now : SystemTime) (next : Act Response Unit)
      → Keeps P next
      → Keeps P (guard crypto parses state authorization now next)
  unfolding guard
  guard-P crypto parses state authorization now next k = Keeps-bind (lift _) _ (Keeps-lift _) λ raw.
      Keeps-bind (accepted crypto state now (trim raw)) _ (accepted-P crypto state now (trim raw))
        λ b. Keeps-if b _ _ k (Keeps-lift _)

  pub sweep_sessions-P :
      (now : SystemTime) (retention : Duration) → Keeps P (Store.sweep_sessions now retention)
  unfolding Store.sweep_sessions
  sweep_sessions-P now retention = search (keeps_rules, delete_idle_sessions-P)
