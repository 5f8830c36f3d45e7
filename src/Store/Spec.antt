-- ===== src/Store/Spec.antt =====
-- What src/store.rs promises, without tables and rows: four maps, and what each method does to them
-- where the engine does not fail.
use local_mcp.Common.{◌≡◌, Bool, Option, none, some, List, [], ◌∷◌, ◌++◌, any, if◌then◌else◌}
use local_mcp.Common.Str.{Str, str_eq}
use local_mcp.Common.Result.{is_some, Result, ok, err}
use local_mcp.Table
use local_mcp.Table.Laws.{unless}
use local_mcp.Common.Eq.{str_Eq}
use local_mcp.Store.Clock.{to_epoch}
use local_mcp.Store.Tables.{
  Tables, CodeRow, TokenRow, SessionRow, DbError, conflict, uris_of, code_key, token_key,
  session_key, token_expired, code_expired, idle_since, touch,
}
use local_mcp.Store.Engine.{Db}
use local_mcp.Store
use local_mcp.Store.{
  PendingCode, code_row, of_code_row, map_option, params_of, some_unless_empty, sweep_cutoff,
}
use local_mcp.Store.Calls.{
  Call, register_client, redirect_uris, store_code, take_code, store_token, token_is_valid,
  save_session, load_session, delete_session, sweep_sessions,
}

-- The redirect URIs of a client in their order, and the row of a code, a token and a session.
pub record View : Type 0 where
  pub uris : Str → List Str
  pub code : Str → Option CodeRow
  pub token : Str → Option TokenRow
  pub session : Str → Option SessionRow

abbrev pub view : Tables → View
view t = record {
  uris = λ id. uris_of id t.clients;
  code = λ k. Table.find code_key k t.codes;
  token = λ k. Table.find token_key k t.tokens;
  session = λ k. Table.find session_key k t.sessions;
}

pub data Answer : Type 0 where
  failed : DbError → Answer
  done swept : Answer
  registered_uris : Option (List Str) → Answer
  taken : Option PendingCode → Answer
  valid : Bool → Answer
  handshake : Option Str → Answer

abbrev pub put : {R : Type 0} → (Str → R) → Str → R → Str → R
put f k r j = if str_eq k j then r else f j

-- A URI that is not there yet comes at the end.
abbrev pub add_uri : Str → List Str → List Str
add_uri uri uris = if any (λ u. str_eq u uri) uris then uris else uris ++ uri ∷ []

abbrev pub add_uris : List Str → List Str → List Str
add_uris [] uris = uris
add_uris (uri ∷ more) uris = add_uris more (add_uri uri uris)

abbrev pub spec : Call → View → Answer × View
spec (register_client id uris) v =
    (done, record v { uris = put v.uris id (add_uris uris (v.uris id)) })
spec (redirect_uris id) v = (registered_uris (some_unless_empty (v.uris id)), v)
spec (store_code code pending) v = elim (v.code code) [
  | none ↦ (done, record v { code = put v.code code (some (code_row code pending)) })
  | some r ↦ (failed conflict, v)
]
spec (take_code code) v =
    (taken (map_option of_code_row (v.code code)), record v { code = put v.code code none })
spec (store_token token expires_at) v = elim (v.token token) [
  | none ↦ (
    done,
    record v {
      token = put v.token token (some (record { token = token; expires_at = to_epoch expires_at }));
    },
  )
  | some r ↦ (failed conflict, v)
]
spec (token_is_valid now token) v = (
  valid (is_some (unless (token_expired (to_epoch now)) (v.token token))),
  record v {
    token = λ k. unless (token_expired (to_epoch now)) (v.token k);
    code = λ k. unless (code_expired (to_epoch now)) (v.code k);
  },
)
spec (save_session now id params) v = (
  done,
  record v {
    session =
        put v.session id
          (some (record { session_id = id; initialize_params = params; last_seen = to_epoch now }));
  },
)
spec (load_session now id) v = (
  handshake (map_option params_of (v.session id)),
  record v { session = put v.session id (map_option (touch (to_epoch now)) (v.session id)) },
)
spec (delete_session id) v = (done, record v { session = put v.session id none })
spec (sweep_sessions now retention) v = (
  swept,
  record v {
    session = λ k. unless (idle_since (to_epoch (sweep_cutoff now retention))) (v.session k);
  },
)

abbrev pub reply : {A : Type 0} → (A → Answer) → Result DbError A × Db → Answer × View
reply f (ok a, db) = (f a, view db.tables)
reply f (err e, db) = (failed e, view db.tables)

-- What a method answers, and the maps after it.
unfoldable pub observe : Call → Db → Answer × View
observe (register_client id uris) db = reply (λ _. done) (Store.register_client id uris db)
observe (redirect_uris id) db = reply (λ o. registered_uris o) (Store.redirect_uris id db)
observe (store_code code pending) db = reply (λ _. done) (Store.store_code code pending db)
observe (take_code code) db = reply (λ o. taken o) (Store.take_code code db)
observe (store_token token expires_at) db =
    reply (λ _. done) (Store.store_token token expires_at db)
observe (token_is_valid now token) db = reply (λ b. valid b) (Store.token_is_valid now token db)
observe (save_session now id params) db = reply (λ _. done) (Store.save_session now id params db)
observe (load_session now id) db = reply (λ o. handshake o) (Store.load_session now id db)
observe (delete_session id) db = reply (λ _. done) (Store.delete_session id db)
observe (sweep_sessions now retention) db =
    reply (λ n. swept) (Store.sweep_sessions now retention db)

-- Two views with the same answers.
pub View-ext :
    (v w : View)
    → ((k : Str) → v.uris k ≡ w.uris k)
    → ((k : Str) → v.code k ≡ w.code k)
    → ((k : Str) → v.token k ≡ w.token k)
    → ((k : Str) → v.session k ≡ w.session k)
    → v ≡ w
View-ext v w u c t s =
    λ i. record { uris = λ k. u k i; code = λ k. c k i; token = λ k. t k i; session = λ k. s k i }

-- A database whose engine does not fail.
abbrev pub sound : Tables → Db
sound t = record { tables = t; faults = [] }
