-- ===== src/Service/Keeps.antt =====
-- src/main.rs, the router: the origin of codes and tokens through each request.
use local_mcp.Common.{
  ◌≡◌, refl, sym, ◌∙◌, inl, inr, Bool, Bool-cases, Option-cases, Option, none, some, List,
  All-append, arith, subst,
}
use local_mcp.Common.Str.{Str, bytes, trim}
use local_mcp.Common.Eq.{str_Eq}
use local_mcp.Common.Result.{ok, Result-cases}
use local_mcp.Json.{Json}
use local_mcp.Http.{Response}
use local_mcp.Table.Laws.{find-eq-some}
use local_mcp.Store.Clock.{SystemTime}
use local_mcp.Store.Tables.{Tables, code_key}
use local_mcp.Store.Engine.{Db, Act, pure, map_error, ◌>>=◌}
use local_mcp.Store.Keeps.{Keeps, Keeps-bind}
use local_mcp.Store.Inversion.{then_pure_state}
use local_mcp.Store.{store_code}
use local_mcp.Store.Codes.{store_code_ok, store_code_err}
use local_mcp.OAuth.{
  Crypto, OAuth, ConsentForm, TokenRequest, register, requested_uris, authorize_form,
  authorize_submit, token, validate_client, secret_matches, decide_consent, issue_code,
  server_error, pending_of,
}
use local_mcp.OAuth.Consent.{IsConstantTimeEq, constant_time_iff, validate_client-IsQuiet}
use local_mcp.OAuth.Exchange.{token_ok}
use local_mcp.OAuth.Refusal.{token_err}
use local_mcp.Service.{
  Settings, offered, auth_state, session_calls, Request, post_register, get_authorize,
  post_authorize, post_token, mcp, startup_sweep, route, serve,
}
use local_mcp.Service.Origin.{IsAmong, Explained, erase-All, find-All, delete_where-All}
use local_mcp.Service.Neutral.{
  Neutral, Keeps-of_quiet, register_uris-P, authorize_form-P, guard-P, session_calls-P,
  sweep_sessions-P,
}

module _ (crypto : Crypto) (config : Settings) (history : List Request) where
  abbrev P : Tables → Type 0
  P = Explained crypto config history

  pub Explained-Neutral : Neutral P
  Explained-Neutral = record {
    clients = λ t rows h. record { codes = h.codes; tokens = h.tokens };
    sessions = λ t rows h. record { codes = h.codes; tokens = h.tokens };
    fewer_codes =
        λ t stale h. record { codes = delete_where-All _ stale t.codes h.codes; tokens = h.tokens };
    fewer_tokens = λ t stale h. record {
      codes = h.codes;
      tokens = delete_where-All _ stale t.tokens h.tokens;
    };
  }

  pub then_pure-P :
      {A B : Type 0} (m : Act Response A) (b : B) (db : Db)
      → P (m db).1.tables
      → P ((m >>= λ _. pure b) db).1.tables
  then_pure-P m b db h = subst (λ (d : Db). P d.tables) (sym (then_pure_state m b db)) h

  -- A consent that is given explains its code.
  pub decide_consent-P :
      (oauth : OAuth) (form : ConsentForm) (code : Str) (now : SystemTime) (db : Db)
      → IsConstantTimeEq crypto
      → oauth.consent_secret ≡ config.token
      → IsAmong (post_authorize form code now) history
      → P db.tables
      → P (decide_consent crypto oauth form code now db).1.tables
  unfolding decide_consent issue_code
  decide_consent-P oauth form code now db law same among h =
      elim (Bool-cases (secret_matches crypto oauth.consent_secret (trim form.token))) [
        | inr wrong ↦ rw wrong h
        | inl right ↦
            let secret : oauth.consent_secret ≡ trim form.token =
              (unfold secret_matches in
                (constant_time_iff crypto oauth.consent_secret (trim form.token) law).0 right) in
            rw right (
              then_pure-P
                (map_error (server_error (bytes "cannot record the authorization code"))
                  (store_code code (pending_of form now)))
                _ db
                (elim (Result-cases (store_code code (pending_of form now) db).0) [
                  | inr (d, e) ↦ subst P (sym (store_code_err code (pending_of form now) db d e)) h
                  | inl (u, e) ↦
                      subst P (sym (store_code_ok code (pending_of form now) db e).1) (record {
                        codes = All-append _ db.codes _ h.codes (
                          record {
                            form = form;
                            code = code;
                            now = now;
                            submitted = among;
                            consented = sym secret ∙ same;
                            stored = refl;
                          },
                          tt,
                        );
                        tokens = h.tokens;
                      })
                ]))
      ]

  authorize_submit-P :
      (oauth : OAuth) (form : ConsentForm) (code : Str) (now : SystemTime)
      → IsConstantTimeEq crypto
      → oauth.consent_secret ≡ config.token
      → IsAmong (post_authorize form code now) history
      → Keeps P (authorize_submit crypto oauth form code now)
  unfolding authorize_submit
  authorize_submit-P oauth form code now law same among =
      Keeps-bind (validate_client form.client_id form.redirect_uri) _
        (Keeps-of_quiet Explained-Neutral _
          (validate_client-IsQuiet form.client_id form.redirect_uri))
        λ _. record { at = λ db h. decide_consent-P oauth form code now db law same among h }

  -- An exchange that succeeds explains its token, and one that fails at most takes a code away.
  token_ok-P :
      (request : TokenRequest) (t : Str) (now later : SystemTime) (db : Db) (answer : Json)
      → IsAmong (post_token request t now later) history
      → (token crypto request t now later db).0 ≡ ok answer
      → P db.tables
      → P (token crypto request t now later db).1.tables
  token_ok-P request t now later db answer among done h =
      let (_, _, x) = token_ok crypto request t now later db answer done in
      subst P (sym x.left) (record {
        codes = erase-All code_key _ request.code db.codes h.codes;
        tokens = All-append _ db.tokens _ h.tokens (
          record {
            request = request;
            access_token = t;
            now = now;
            later = later;
            requested = among;
            stored = refl;
            code = x.row;
            code_origin = find-All code_key _ request.code db.codes x.row h.codes x.pending;
            named = find-eq-some code_key request.code db.codes x.row x.pending;
            granted = x.granted;
          },
          tt,
        );
      })

  token-P :
      (request : TokenRequest) (t : Str) (now later : SystemTime)
      → IsAmong (post_token request t now later) history
      → Keeps P (token crypto request t now later)
  token-P request t now later among = record {
    at = λ db h. elim (Result-cases (token crypto request t now later db).0) [
      | inl (answer, done) ↦ token_ok-P request t now later db answer among done h
      | inr (e, failed) ↦ elim (token_err crypto request t now later db e failed) [
        | inl same ↦ subst P (sym same) h
        | inr taken ↦ subst P (sym taken) (record {
          codes = erase-All code_key _ request.code db.codes h.codes;
          tokens = h.tokens;
        })
      ]
    ];
  }

  route-P :
      (o : Option OAuth) (handler : OAuth → Db → Db) (db : Db)
      → ((oauth : OAuth) → o ≡ some oauth → P (handler oauth db).tables)
      → P db.tables
      → P (route o handler db).tables
  route-P none handler db k h = h
  route-P (some oauth) handler db k h = k oauth refl

  pub offered_secret :
      (oauth : OAuth) → offered config ≡ some oauth → oauth.consent_secret ≡ config.token
  offered_secret oauth h = elim (Option-cases config.public_url) [
    | inl off ↦ let none_some : none ≡ some oauth = rw off at h in cc
    | inr (url, on) ↦
        let same : some (record { issuer = url; consent_secret = config.token }) ≡ some oauth =
          rw on at h in
        ground (arith, same)
  ]

  -- A request of the history keeps the explanation.
  pub serve-P :
      (parses : Str → Bool) (r : Request) (db : Db)
      → IsConstantTimeEq crypto
      → IsAmong r history
      → P db.tables
      → P (serve crypto parses config r db).tables
  unfolding serve register
  serve-P parses (post_register id body) db law among h =
      route-P (offered config) (λ oauth d. (register id body d).1) db
        (λ oauth on. (register_uris-P Explained-Neutral id (requested_uris body)).at db h) h
  serve-P parses (get_authorize params) db law among h =
      route-P (offered config) (λ oauth d. (authorize_form params d).1) db
        (λ oauth on. (authorize_form-P Explained-Neutral params).at db h) h
  serve-P parses (post_authorize form code now) db law among h =
      route-P (offered config) (λ oauth d. (authorize_submit crypto oauth form code now d).1) db
        (λ oauth on.
          (authorize_submit-P oauth form code now law (offered_secret oauth on) among).at db h)
        h
  serve-P parses (post_token request t now later) db law among h =
      route-P (offered config) (λ oauth d. (token crypto request t now later d).1) db
        (λ oauth on. (token-P request t now later among).at db h) h
  serve-P parses (mcp authorization now calls) db law among h =
      (guard-P Explained-Neutral crypto parses (auth_state config) authorization now
          (session_calls calls) (record { at = session_calls-P Explained-Neutral calls })).at
        db h
  serve-P parses (startup_sweep now retention) db law among h =
      (sweep_sessions-P Explained-Neutral now retention).at db h
