-- ===== src/Service/Threads/Counting.antt =====
-- src/main.rs, src/oauth.rs and src/store.rs: how many tokens requests that are served at the same
-- time can obtain.
use local_mcp.Common.{
  ℕ, ◌+◌, ◌≤◌, ◌≡◌, refl, ap, arith, Bool, true, false, Bool-cases, inl, inr, Option, none, some,
  List, [], ◌∷◌, length, zero, suc, Option-cases,
}
use local_mcp.Common.Str.{Str, bytes, trim}
use local_mcp.Common.Eq.{str_Eq}
use local_mcp.Common.Result.{Result, ok, err}
use local_mcp.Http.{Response}
use local_mcp.Store.Clock.{SystemTime}
use local_mcp.Store.Engine.{Db, pure, map_error}
use local_mcp.Store
use local_mcp.Store.Open.{create_tables, closed, create_tables-closed}
use local_mcp.Store.{
  PendingCode, code_row, store_code, take_code, store_token, map_option, of_code_row,
}
use local_mcp.OAuth.{
  Crypto, OAuth, ConsentForm, pending_of, server_error, validate_client, decide_consent, issue_code,
  register, requested_uris, authorize_form, secret_matches,
}
use local_mcp.OAuth.Consent.{validate_client-IsQuiet}
use local_mcp.Service.{
  Settings, offered, auth_state, Request, post_register, get_authorize, post_authorize, post_token,
  mcp, startup_sweep, serve, route,
}
use local_mcp.Auth.{guard}
use local_mcp.Service.Keeps.{offered_secret}
use local_mcp.Service.Neutral.{
  session_call-P, guard-P, register_uris-P, authorize_form-P, sweep_sessions-P,
}
use local_mcp.Service.Threads.{
  Thread, arrived, consenting, issuing, calling, redeem, go_on, advance_thread, Running, Event,
  arrives, advances, restarts, still, where_offered, advance_at, happen, interleave, arrivals,
}
use local_mcp.Service.Threads.Rows.{
  rows, rows-Neutral, store_code-rows, issue_token-rows, then_pure-rows, spent, redeem-rows,
}

module _ (crypto : Crypto) (config : Settings) where
  -- The form carries the configured token.
  abbrev pub consents : ConsentForm → Bool
  consents form = secret_matches crypto config.token (trim form.token)

  abbrev pub one_if : Bool → ℕ
  one_if true = 1
  one_if false = 0

  -- The rows that a request may still add.
  abbrev pub credit : Thread → ℕ
  credit (arrived (post_authorize form code now)) = one_if (consents form)
  credit (arrived r) = 0
  credit (consenting form code now) = one_if (consents form)
  credit (issuing t later) = 1
  credit (calling calls) = 0

  abbrev pub credits : List Thread → ℕ
  credits [] = 0
  credits (t ∷ threads) = credit t + credits threads

  abbrev credit_left : Option Thread → ℕ
  credit_left none = 0
  credit_left (some t) = credit t

  -- The consent forms with the configured token among requests.
  abbrev pub consent_count : List Request → ℕ
  consent_count [] = 0
  consent_count (r ∷ requests) = credit (arrived r) + consent_count requests

  decide_consent-rows :
      (oauth : OAuth) (form : ConsentForm) (code : Str) (now : SystemTime) (db : Db)
      → oauth.consent_secret ≡ config.token
      → rows (decide_consent crypto oauth form code now db).1.tables
        ≤ rows db.tables + one_if (consents form)
  unfolding decide_consent issue_code
  decide_consent-rows oauth form code now db same =
      elim (Bool-cases (secret_matches crypto config.token (trim form.token))) [
        | inr wrong ↦ rw (same, wrong) (omega arith)
        | inl right ↦
            rw (same, right)
              (then_pure-rows
                (map_error (server_error (bytes "cannot record the authorization code"))
                  (store_code code (pending_of form now)))
                _ db _ (store_code-rows code (pending_of form now) db))
      ]

  -- The rows are bounded by the rows before and what the thread may still add.
  abbrev Bounded : ℕ → Option Thread × Db → Type 0
  Bounded n (next, db') = rows db'.tables + credit_left next ≤ n

  where_offered-Bounded :
      (n : ℕ) (f : OAuth → Db → Option Thread × Db) (db : Db)
      → rows db.tables ≤ n
      → ((oauth : OAuth) → offered config ≡ some oauth → Bounded n (f oauth db))
      → Bounded n (where_offered (offered config) f db)
  where_offered-Bounded n f db h k = elim (Option-cases (offered config)) [
    | inl off ↦ rw off (omega arith)
    | inr (oauth, on) ↦ rw on (k oauth on)
  ]

  go_on-Bounded :
      {A : Type 0} (n : ℕ) (t : Thread) (r : Result Response A × Db)
      → rows r.1.tables + credit t ≤ n
      → Bounded n (go_on t r)
  go_on-Bounded n t (ok a, db) h = h
  go_on-Bounded n t (err e, db) h = omega arith

  -- What keeps every bound adds nothing.
  Neutral-Bounded :
      (db db' : Db)
      → ((n : ℕ) → rows db.tables ≤ n → rows db'.tables ≤ n)
      → Bounded (rows db.tables + 0) (none, db')
  Neutral-Bounded db db' k = let h = k (rows db.tables) (omega arith) in omega arith

  issuing-Bounded :
      (n : ℕ) (t : Str) (later : SystemTime) (r : Result Response (Unit {0}) × Db)
      → rows r.1.tables + spent r.0 ≤ n
      → Bounded n (go_on (issuing t later) r)
  issuing-Bounded n t later (ok u, db) h = h
  issuing-Bounded n t later (err e, db) h = omega arith

  route-rows :
      (n : ℕ) (o : Option OAuth) (handler : OAuth → Db → Db) (db : Db)
      → ((oauth : OAuth) → rows (handler oauth db).tables ≤ n)
      → rows db.tables ≤ n
      → rows (route o handler db).tables ≤ n
  route-rows n none handler db k h = h
  route-rows n (some oauth) handler db k h = k oauth

  consenting-Bounded :
      (form : ConsentForm) (code : Str) (now : SystemTime) (oauth : OAuth) (db : Db)
      → offered config ≡ some oauth
      → Bounded
          (rows db.tables + one_if (consents form))
          (none, (decide_consent crypto oauth form code now db).1)
  consenting-Bounded form code now oauth db on =
      let h =
        decide_consent-rows oauth form code now db (offered_secret crypto config [] oauth on) in
      omega arith

  -- A step adds no more rows than the thread may add.
  advance_thread-Bounded :
      (parses : Str → Bool) (t : Thread) (db : Db)
      → Bounded (rows db.tables + credit t) (advance_thread crypto parses config t db)
  unfolding advance_thread serve register
  advance_thread-Bounded parses (arrived (post_authorize form code now)) db =
      where_offered-Bounded _
        (λ oauth d.
          go_on (consenting form code now) (validate_client form.client_id form.redirect_uri d))
        db (omega arith)
        λ oauth on.
          go_on-Bounded _ (consenting form code now)
            (validate_client form.client_id form.redirect_uri db)
            (rw ((validate_client-IsQuiet form.client_id form.redirect_uri).at db) (omega arith))
  advance_thread-Bounded parses (arrived (post_token request t now later)) db =
      where_offered-Bounded _ (λ oauth d. go_on (issuing t later) (redeem crypto request now d)) db
        (omega arith)
        λ oauth on.
          issuing-Bounded _ t later (redeem crypto request now db)
            (let h = redeem-rows crypto request now db in omega arith)
  advance_thread-Bounded parses (arrived (mcp authorization now calls)) db =
      go_on-Bounded _ (calling calls)
        (guard crypto parses (auth_state config) authorization now (pure tt) db)
        (let h =
            (guard-P (rows-Neutral (rows db.tables)) crypto parses (auth_state config) authorization
                now (pure tt) (record { at = λ d h. h })).at
              db (omega arith) in
          omega arith)
  advance_thread-Bounded parses (arrived (post_register id body)) db =
      Neutral-Bounded db (route (offered config) (λ oauth d. (register id body d).1) db) λ n h.
        route-rows n (offered config) (λ oauth d. (register id body d).1) db
          (λ oauth. (register_uris-P (rows-Neutral n) id (requested_uris body)).at db h) h
  advance_thread-Bounded parses (arrived (get_authorize params)) db =
      Neutral-Bounded db (route (offered config) (λ oauth d. (authorize_form params d).1) db) λ n h.
        route-rows n (offered config) (λ oauth d. (authorize_form params d).1) db
          (λ oauth. (authorize_form-P (rows-Neutral n) params).at db h) h
  advance_thread-Bounded parses (arrived (startup_sweep now retention)) db =
      Neutral-Bounded db (Store.sweep_sessions now retention db).1
        λ n h. (sweep_sessions-P (rows-Neutral n) now retention).at db h
  advance_thread-Bounded parses (consenting form code now) db =
      where_offered-Bounded _ (λ oauth d. (none, (decide_consent crypto oauth form code now d).1))
        db (omega arith) λ oauth on. consenting-Bounded form code now oauth db on
  advance_thread-Bounded parses (issuing t later) db =
      let h = issue_token-rows t later db in omega arith
  advance_thread-Bounded parses (calling []) db = omega arith
  advance_thread-Bounded parses (calling (c ∷ calls)) db =
      let h = session_call-P (rows-Neutral (rows db.tables)) c db (omega arith) in omega arith

  credits-still :
      (t : Option Thread) (threads : List Thread)
      → credits (still t threads) ≡ credit_left t + credits threads
  credits-still none threads = omega arith
  credits-still (some t) threads = refl

  abbrev at_stake : List Thread × Db → ℕ
  at_stake (threads, db) = rows db.tables + credits threads

  advance_at-at_stake :
      (parses : Str → Bool) (i : ℕ) (threads : List Thread) (db : Db)
      → at_stake (advance_at crypto parses config i threads db) ≤ at_stake (threads, db)
  unfolding advance_at
  advance_at-at_stake parses i [] db = omega arith
  advance_at-at_stake parses zero (t ∷ threads) db =
      let h = advance_thread-Bounded parses t db in
      let e = credits-still (advance_thread crypto parses config t db).0 threads in omega arith
  advance_at-at_stake parses (suc i) (t ∷ threads) db =
      let h = advance_at-at_stake parses i threads db in omega arith

  interleave-at_stake :
      (parses : Str → Bool) (events : List Event) (s : Running)
      → at_stake (
        (interleave crypto parses config events s).threads,
        (interleave crypto parses config events s).db,
      )
        ≤ at_stake (s.threads, s.db) + consent_count (arrivals events)
  unfolding interleave happen
  interleave-at_stake parses [] s = omega arith
  interleave-at_stake parses (arrives r ∷ events) s =
      let h = interleave-at_stake parses events (record s { threads = arrived r ∷ s.threads }) in
      omega arith
  interleave-at_stake parses (advances i ∷ events) s =
      let h = interleave-at_stake parses events (happen crypto parses config (advances i) s) in
      let k = advance_at-at_stake parses i s.threads s.db in omega arith
  interleave-at_stake parses (restarts faults ∷ events) s =
      let h = interleave-at_stake parses events (happen crypto parses config (restarts faults) s) in
      let e : rows (create_tables (closed s.db.tables)) ≡ rows s.db.tables =
        ap rows (create_tables-closed s.db.tables) in
      omega arith

  -- However the requests interleave, also within one request, and wherever the process is restarted: when no request is under way and no code
  -- and no token is stored at the start, the codes and tokens in the database are never more than the
  -- consent forms with the configured token that have arrived.
  pub interleave-rows :
      (parses : Str → Bool) (events : List Event) (start : Running)
      → start.threads ≡ []
      → start.db.codes ≡ []
      → start.db.tokens ≡ []
      → rows (interleave crypto parses config events start).db.tables
        ≤ consent_count (arrivals events)
  interleave-rows parses events start idle no_codes no_tokens =
      let h = interleave-at_stake parses events start in
      let c : length start.db.codes ≡ 0 = rw no_codes refl in
      let t : length start.db.tokens ≡ 0 = rw no_tokens refl in
      let w : credits start.threads ≡ 0 = rw idle refl in omega arith
