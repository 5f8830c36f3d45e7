-- ===== src/Service/Threads/Origin.antt =====
-- src/main.rs: where codes and tokens come from, when requests are served at the same time.
use local_mcp.Common.{
  ◌≡◌, refl, sym, subst, inl, inr, Bool, Option, none, some, Option-cases, List, [], ◌∷◌, ℕ, zero,
  suc, All, All-append,
}
use local_mcp.Common.Str.{Str, bytes}
use local_mcp.Common.Eq.{str_Eq}
use local_mcp.Common.Int.{add_ℕ}
use local_mcp.Common.Result.{Result, ok, err, Result-cases}
use local_mcp.Http.{Response}
use local_mcp.Table.Laws.{find-eq-some}
use local_mcp.Store.{store_token}
use local_mcp.Store.Clock.{SystemTime, from_secs}
use local_mcp.Store.Tokens.{store_token_ok, store_token_err}
use local_mcp.Store.Open.{create_tables-closed}
use local_mcp.Store.Tables.{Tables, code_key}
use local_mcp.Store.Engine.{Db, pure, map_error}
use local_mcp.OAuth.{
  Crypto, OAuth, TokenRequest, server_error, token_answer, token_ttl_secs, validate_client,
  decide_consent,
}
use local_mcp.OAuth.Consent.{IsConstantTimeEq, validate_client-IsQuiet}
use local_mcp.OAuth.Exchange.{token_row}
use local_mcp.Auth.{guard}
use local_mcp.Service.{
  Settings, offered, auth_state, Request, post_register, get_authorize, post_authorize, post_token,
  mcp, startup_sweep,
}
use local_mcp.Service.Origin.{IsAmong, TokenOrigin, Explained, erase-All, find-All}
use local_mcp.Service.Neutral.{session_call-P, guard-P}
use local_mcp.Service.Keeps.{
  Explained-Neutral, then_pure-P, decide_consent-P, offered_secret, serve-P,
}
use local_mcp.Service.Threads.{
  Thread, arrived, consenting, issuing, calling, redeem, issue_token, go_on, where_offered,
  advance_thread, Running, Event, arrives, advances, restarts, still, advance_at, happen,
  interleave, arrivals,
}
use local_mcp.Service.Threads.Redeem.{redeem_ok, redeem-P}

module _ (crypto : Crypto) (config : Settings) (history : List Request) where
  abbrev P : Tables → Type 0
  P = Explained crypto config history

  -- What a thread brings with it.
  abbrev Known : Thread → Type 0
  Known (arrived r) = IsAmong r history
  Known (consenting form code now) = IsAmong (post_authorize form code now) history
  Known (issuing t later) = TokenOrigin crypto config history (token_row t later)
  Known (calling calls) = Unit {0}

  abbrev KnownLeft : Option Thread → Type 0
  KnownLeft none = Unit {0}
  KnownLeft (some t) = Known t

  -- The database is explained, and so is the thread where it goes on.
  abbrev Sound : Option Thread × Db → Type 0
  Sound (next, db) = KnownLeft next × P db.tables

  issue_token-P :
      (t : Str) (later : SystemTime) (db : Db)
      → TokenOrigin crypto config history (token_row t later)
      → P db.tables
      → P (issue_token t later db).1.tables
  unfolding issue_token
  issue_token-P t later db origin h =
      let expires_at = add_ℕ later (from_secs token_ttl_secs) in
      then_pure-P crypto config history
        (map_error (server_error (bytes "cannot record the issued token"))
          (store_token t expires_at))
        (token_answer t) db
        (elim (Result-cases (store_token t expires_at db).0) [
          | inr (d, e) ↦ subst P (sym (store_token_err t expires_at db d e)) h
          | inl (u, e) ↦
              subst P (sym (store_token_ok t expires_at db e).1) (record {
                codes = h.codes;
                tokens = All-append _ db.tokens _ h.tokens (origin, tt);
              })
        ])

  where_offered-Sound :
      (f : OAuth → Db → Option Thread × Db) (db : Db)
      → P db.tables
      → ((oauth : OAuth) → offered config ≡ some oauth → Sound (f oauth db))
      → Sound (where_offered (offered config) f db)
  where_offered-Sound f db h k = elim (Option-cases (offered config)) [
    | inl off ↦ rw off (tt, h)
    | inr (oauth, on) ↦ rw on (k oauth on)
  ]

  go_on-Sound :
      {A : Type 0} (t : Thread) (r : Result Response A × Db)
      → ((a : A) → r.0 ≡ ok a → Known t)
      → P r.1.tables
      → Sound (go_on t r)
  go_on-Sound t (ok a, db) k h = (k a refl, h)
  go_on-Sound t (err e, db) k h = (tt, h)

  -- A request that goes on behind its checks has found where its token stems from.
  redeem-TokenOrigin :
      (request : TokenRequest) (t : Str) (now later : SystemTime) (db : Db)
      → IsAmong (post_token request t now later) history
      → P db.tables
      → (redeem crypto request now db).0 ≡ ok tt
      → TokenOrigin crypto config history (token_row t later)
  redeem-TokenOrigin request t now later db among h passed =
      let x = redeem_ok crypto request now db passed in
      record {
        request = request;
        access_token = t;
        now = now;
        later = later;
        requested = among;
        stored = refl;
        code = x.row;
        code_origin = find-All code_key _ request.code db.codes x.row h.codes x.pending;
        named = find-eq-some code_key request.code db.codes x.row x.pending;
        granted = x.granted;
      }

  module _ (parses : Str → Bool) (law : IsConstantTimeEq crypto) where
    advance_thread-Sound :
        (t : Thread) (db : Db)
        → Known t
        → P db.tables
        → Sound (advance_thread crypto parses config t db)
    unfolding advance_thread
    advance_thread-Sound (arrived (post_authorize form code now)) db among h =
        where_offered-Sound
          (λ oauth d.
            go_on (consenting form code now) (validate_client form.client_id form.redirect_uri d))
          db h
          λ oauth on.
            go_on-Sound (consenting form code now)
              (validate_client form.client_id form.redirect_uri db) (λ u e. among)
              (subst P (sym ((validate_client-IsQuiet form.client_id form.redirect_uri).at db)) h)
    advance_thread-Sound (arrived (post_token request t now later)) db among h =
        where_offered-Sound (λ oauth d. go_on (issuing t later) (redeem crypto request now d)) db h
          λ oauth on.
            go_on-Sound (issuing t later) (redeem crypto request now db)
              (λ u e. redeem-TokenOrigin request t now later db among h e)
              (redeem-P P crypto request now db h (record {
                codes = erase-All code_key _ request.code db.codes h.codes;
                tokens = h.tokens;
              }))
    advance_thread-Sound (arrived (mcp authorization now calls)) db among h =
        go_on-Sound (calling calls)
          (guard crypto parses (auth_state config) authorization now (pure tt) db) (λ u e. tt)
          ((guard-P (Explained-Neutral crypto config history) crypto parses (auth_state config)
              authorization now (pure tt) (record { at = λ d k. k })).at
            db h)
    advance_thread-Sound (arrived (post_register id body)) db among h =
        (tt, serve-P crypto config history parses (post_register id body) db law among h)
    advance_thread-Sound (arrived (get_authorize params)) db among h =
        (tt, serve-P crypto config history parses (get_authorize params) db law among h)
    advance_thread-Sound (arrived (startup_sweep now retention)) db among h =
        (tt, serve-P crypto config history parses (startup_sweep now retention) db law among h)
    advance_thread-Sound (consenting form code now) db among h =
        where_offered-Sound (λ oauth d. (none, (decide_consent crypto oauth form code now d).1)) db
          h
          λ oauth on. (
            tt,
            decide_consent-P crypto config history oauth form code now db law
                (offered_secret crypto config history oauth on) among h,
          )
    advance_thread-Sound (issuing t later) db origin h = (tt, issue_token-P t later db origin h)
    advance_thread-Sound (calling []) db among h = (tt, h)
    advance_thread-Sound (calling (c ∷ calls)) db among h =
        (tt, session_call-P (Explained-Neutral crypto config history) c db h)

    still-Known :
        (t : Option Thread) (threads : List Thread)
        → KnownLeft t
        → All Known threads
        → All Known (still t threads)
    still-Known none threads k ks = ks
    still-Known (some t) threads k ks = (k, ks)

    advance_at-Known :
        (i : ℕ) (threads : List Thread) (db : Db)
        → All Known threads
        → P db.tables
        → All Known (advance_at crypto parses config i threads db).0
          × P (advance_at crypto parses config i threads db).1.tables
    unfolding advance_at
    advance_at-Known i [] db ks h = (tt, h)
    advance_at-Known zero (t ∷ threads) db (k, ks) h =
        let (left, h') = advance_thread-Sound t db k h in
        (still-Known (advance_thread crypto parses config t db).0 threads left ks, h')
    advance_at-Known (suc i) (t ∷ threads) db (k, ks) h =
        let (left, h') = advance_at-Known i threads db ks h in ((k, left), h')

    pub interleave-Explained :
        (events : List Event) (s : Running)
        → All (λ r. IsAmong r history) (arrivals events)
        → All Known s.threads
        → P s.db.tables
        → P (interleave crypto parses config events s).db.tables
    unfolding interleave happen
    interleave-Explained [] s among ks h = h
    interleave-Explained (arrives r ∷ events) s (here, among) ks h =
        interleave-Explained events (record s { threads = arrived r ∷ s.threads }) among (here, ks)
          h
    interleave-Explained (advances i ∷ events) s among ks h =
        let (ks', h') = advance_at-Known i s.threads s.db ks h in
        interleave-Explained events (happen crypto parses config (advances i) s) among ks' h'
    interleave-Explained (restarts faults ∷ events) s among ks h =
        interleave-Explained events (happen crypto parses config (restarts faults) s) among tt
          (subst P (sym (create_tables-closed s.db.tables)) h)
