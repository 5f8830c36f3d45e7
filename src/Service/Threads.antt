-- ===== src/Service/Threads.antt =====
-- src/main.rs, src/oauth.rs and src/auth.rs: requests that are served at the same time. A handler has
-- the lock of the store for one method at a time; between two of its methods other requests run.
pub mod Rows
pub mod Counting
pub mod Redeem
pub mod Origin
pub mod Admission
use local_mcp.Common.{
  ℕ, zero, suc, Bool, true, false, not, Option, none, some, List, [], ◌∷◌, ◌++◌, if◌then◌else◌,
}
use local_mcp.Common.Int.{add_ℕ}
use local_mcp.Common.Str.{Str, bytes, str_eq}
use local_mcp.Common.Result.{Result, ok, err, ok_or}
use local_mcp.Json.{Json}
use local_mcp.Http.{Response, bad_request}
use local_mcp.Store.Clock.{SystemTime, from_secs}
use local_mcp.Store.Engine.{Db, Act, pure, lift, map_error, ◌>>=◌, ◌>>◌}
use local_mcp.Store.Open.{create_tables, closed}
use local_mcp.Store.{take_code, store_token}
use local_mcp.OAuth.{
  Crypto, OAuth, ConsentForm, TokenRequest, server_error, invalid_grant, oauth_error, check_grant,
  token_answer, token_ttl_secs, validate_client, decide_consent,
}
use local_mcp.Auth.{guard}
use local_mcp.Service.{
  Settings, offered, auth_state, SessionCall, session_call, Request, post_register, get_authorize,
  post_authorize, post_token, mcp, startup_sweep, serve,
}

-- `token` up to its last check, with the one method of the store in it
unfoldable pub redeem : Crypto → TokenRequest → SystemTime → Act Response (Unit {0})
redeem crypto request now =
    if not (str_eq request.grant_type (bytes "authorization_code"))
    then lift (
        err (
          oauth_error bad_request (bytes "unsupported_grant_type")
            (bytes "only authorization_code is supported")))
    else (do
      taken ←
          map_error (server_error (bytes "cannot read the authorization code"))
            (take_code request.code)
      pending ←
          lift (ok_or (invalid_grant (bytes "unknown or already-used authorization code")) taken)
      lift (check_grant crypto request pending now))

-- The rest of `token`
unfoldable pub issue_token : Str → SystemTime → Act Response Json
issue_token access_token later = do
  map_error (server_error (bytes "cannot record the issued token"))
      (store_token access_token (add_ℕ later (from_secs token_ttl_secs)))
  pure (token_answer access_token)

-- How far a request has come.
pub data Thread : Type 0 where
  arrived : Request → Thread
  -- `authorize_submit` behind `validate_client`
  consenting : ConsentForm → Str → SystemTime → Thread
  -- `token` behind its checks
  issuing : Str → SystemTime → Thread
  -- the transport behind the guard, with what it still asks of the session store
  calling : List SessionCall → Thread

abbrev pub go_on : {A : Type 0} → Thread → Result Response A × Db → Option Thread × Db
go_on t (ok a, db) = (some t, db)
go_on t (err e, db) = (none, db)

abbrev pub where_offered :
    Option OAuth → (OAuth → Db → Option Thread × Db) → Db → Option Thread × Db
where_offered none f db = (none, db)
where_offered (some oauth) f db = f oauth db

-- One method of the store and what follows up to the next; `none` where the request is done.
unfoldable pub advance_thread : Crypto → (Str → Bool) → Settings → Thread → Db → Option Thread × Db
advance_thread crypto parses config (arrived (post_authorize form code now)) db =
    where_offered (offered config)
      (λ oauth d.
        go_on (consenting form code now) (validate_client form.client_id form.redirect_uri d))
      db
advance_thread crypto parses config (arrived (post_token request access_token now later)) db =
    where_offered (offered config)
      (λ oauth d. go_on (issuing access_token later) (redeem crypto request now d)) db
advance_thread crypto parses config (arrived (mcp authorization now calls)) db =
    go_on (calling calls) (guard crypto parses (auth_state config) authorization now (pure tt) db)
advance_thread crypto parses config (arrived r) db = (none, serve crypto parses config r db)
advance_thread crypto parses config (consenting form code now) db =
    where_offered (offered config)
      (λ oauth d. (none, (decide_consent crypto oauth form code now d).1)) db
advance_thread crypto parses config (issuing access_token later) db =
    (none, (issue_token access_token later db).1)
advance_thread crypto parses config (calling []) db = (none, db)
advance_thread crypto parses config (calling (c ∷ calls)) db =
    (some (calling calls), session_call c db)

pub record Running : Type 0 where
  pub threads : List Thread
  pub db : Db

pub data Event : Type 0 where
  arrives : Request → Event
  -- the thread at a place takes its next step
  advances : ℕ → Event
  -- the process ends between two methods of the store, and a new one opens the database
  restarts : List Bool → Event

abbrev pub still : Option Thread → List Thread → List Thread
still none threads = threads
still (some t) threads = t ∷ threads

-- The thread at a place goes on; the others stand still.
unfoldable pub advance_at :
    Crypto → (Str → Bool) → Settings → ℕ → List Thread → Db → List Thread × Db
advance_at crypto parses config i [] db = ([], db)
advance_at crypto parses config zero (t ∷ threads) db =
    let (next, db') = advance_thread crypto parses config t db in (still next threads, db')
advance_at crypto parses config (suc i) (t ∷ threads) db =
    let (rest, db') = advance_at crypto parses config i threads db in (t ∷ rest, db')

unfoldable pub happen : Crypto → (Str → Bool) → Settings → Event → Running → Running
happen crypto parses config (arrives r) s = record s { threads = arrived r ∷ s.threads }
happen crypto parses config (advances i) s =
    let (threads, db) = advance_at crypto parses config i s.threads s.db in
    record { threads = threads; db = db }
happen crypto parses config (restarts faults) s = record {
  threads = [];
  db = record { tables = create_tables (closed s.db.tables); faults = faults };
}

-- Any interleaving of arrivals, steps and restarts.
unfoldable pub interleave : Crypto → (Str → Bool) → Settings → List Event → Running → Running
interleave crypto parses config [] s = s
interleave crypto parses config (e ∷ events) s =
    interleave crypto parses config events (happen crypto parses config e s)

-- The requests that arrive.
abbrev pub arrivals : List Event → List Request
arrivals [] = []
arrivals (arrives r ∷ events) = r ∷ arrivals events
arrivals (advances i ∷ events) = arrivals events
arrivals (restarts faults ∷ events) = arrivals events
