-- ===== src/OAuth/Consent.antt =====
-- src/oauth.rs: the consent screen and the check of the client.
use local_mcp.Common.{
  ◌≡◌, ◌↔◌, refl, ap, ◌∙◌, true, ◌&&◌, ◌==◌, length, any, Bool-cases, ◌⊎◌, inl, inr, Option, none,
  some, List, [], ◌∷◌, ◌++◌, subst, ==_iff, &&-elim,
}
use local_mcp.Common.Str.{Str, bytes, str_eq, trim}
use local_mcp.Common.Result.{Result, ok, err, Result-cases, err-ne-ok, map_err-eq-ok}
use local_mcp.Common.Eq.{str_Eq}
use local_mcp.Http.{Response, respond, html, text, found, unauthorized, internal_server_error}
use local_mcp.Table
use local_mcp.Store.Clock.{SystemTime}
use local_mcp.Store.Tables.{Tables, code_key, uris_of}
use local_mcp.Store.Engine.{Db, Act, map_error}
use local_mcp.Store.Inversion.{
  IsQuiet, IsQuiet-lift, IsQuiet-bind, IsQuiet-map_error, bind_ok, then_pure_state, then_pure_ok,
  then_pure_err,
}
use local_mcp.Store.{code_row, redirect_uris, some_unless_empty, store_code}
use local_mcp.Store.Codes.{store_code_ok, store_code_err}
use local_mcp.Store.Clients.{registered, redirect_uris_ok, redirect_uris_err}
use local_mcp.OAuth.{
  Crypto, OAuth, ConsentForm, pending_of, location, refusal_page, check_uri, validate_client,
  redirected, issue_code, decide_consent, authorize_submit, secret_matches, server_error,
}

-- What `subtle` promises of its comparison, for inputs of one length.
pub record IsConstantTimeEq (crypto : Crypto) : Type 0 where
  pub ct_eq_iff : (a b : Str) → length a ≡ length b → (crypto.ct_eq a b ≡ true) ↔ (a ≡ b)

-- The comparison of both secrets and tokens.
pub constant_time_iff :
    (crypto : Crypto) (expected presented : Str)
    → IsConstantTimeEq crypto
    → ((length expected == length presented && crypto.ct_eq expected presented) ≡ true)
      ↔ (expected ≡ presented)
constant_time_iff crypto expected presented law = (
  λ h.
      let (same_length, same) = &&-elim _ _ h in
      (law.ct_eq_iff expected presented ((==_iff _ _).0 same_length)).0 same,
  λ same.
      subst (λ (s : Str). (length expected == length s && crypto.ct_eq expected s) ≡ true) same
        (rw ((==_iff (length expected) (length expected)).1 refl)
          ((law.ct_eq_iff expected expected refl).1 refl)),
)

redirect_uris-IsQuiet : (id : Str) → IsQuiet (redirect_uris id)
redirect_uris-IsQuiet id = record {
  at = λ db. elim (Result-cases (redirect_uris id db).0) [
    | inl (o, e) ↦ (redirect_uris_ok id db o e).1
    | inr (d, e) ↦ redirect_uris_err id db d e
  ];
}

pub validate_client-IsQuiet : (id uri : Str) → IsQuiet (validate_client id uri)
unfolding validate_client
validate_client-IsQuiet id uri =
    IsQuiet-bind _ _ (IsQuiet-map_error _ _ (redirect_uris-IsQuiet id)) (λ o. IsQuiet-lift _)

check_uri-any :
    (uri : Str) (uris : List Str)
    → check_uri (some_unless_empty uris) uri ≡ ok tt
    → any (λ u. str_eq u uri) uris ≡ true
unfolding check_uri
check_uri-any uri [] h = cc
check_uri-any uri (u ∷ uris) h = elim (Bool-cases (any (λ v. str_eq v uri) (u ∷ uris))) [
  | inl e ↦ e
  | inr e ↦ err-ne-ok _ _ (rw e at h)
]

-- A client passes only if its redirect URI is registered.
pub validate_client_ok :
    (id uri : Str) (db : Db)
    → (validate_client id uri db).0 ≡ ok tt
    → registered id uri db.clients ≡ true
unfolding validate_client
validate_client_ok id uri db h =
    let p = bind_ok _ (map_error _ (redirect_uris id)) db tt h in
    let answer = redirect_uris_ok id db p.value (map_err-eq-ok _ _ p.first) in
    check_uri-any uri (uris_of id db.clients) (rw answer.0 at p.rest)

-- How a stored code is answered: with the redirect, or with 500 where the location is no header.
abbrev pub Redirects : Option Str → Str → Result Response Response → Type 0
Redirects header_error location answer =
    ((header_error ≡ none)
      × (answer
          ≡ ok (record {
            status = found;
            headers = (bytes "location", location) ∷ [];
            body = text (bytes "authorized");
          })))
    ⊎ ((e : Str) × (header_error ≡ some e) × (answer ≡ ok (respond internal_server_error (text e))))

redirected-Redirects :
    (o : Option Str) (location : Str) (answer : Result Response Response)
    → answer ≡ ok (redirected o location)
    → Redirects o location answer
redirected-Redirects none location answer h = inl (refl, h)
redirected-Redirects (some e) location answer h = inr (e, refl, h)

-- A consent that was given: where the code went, and why.
pub record Issued (crypto : Crypto) (oauth : OAuth) (form : ConsentForm) (code : Str)
    (now : SystemTime) (before after : Tables) (answer : Result Response Response) : Type 0 where
  pub known : registered form.client_id form.redirect_uri before.clients ≡ true
  pub secret : secret_matches crypto oauth.consent_secret (trim form.token) ≡ true
  pub unused : Table.find code_key code before.codes ≡ none
  pub left :
      after ≡ record before { codes = before.codes ++ code_row code (pending_of form now) ∷ [] }
  pub redirects : Redirects (crypto.header_error (location form code)) (location form code) answer

-- A consent that was not: nothing is stored, and no answer carries a code.
pub record Withheld (form : ConsentForm) (before after : Tables) (answer : Result Response Response)
    : Type 0 where
  pub left : after ≡ before
  pub answers :
      ((e : Response) × (answer ≡ err e))
      ⊎ (answer ≡ ok (respond unauthorized (html (refusal_page form))))

module _ (crypto : Crypto) (oauth : OAuth) (form : ConsentForm) (code : Str)
    (now : SystemTime) where
  Issued-code :
      (db : Db) (before : Tables)
      → db.tables ≡ before
      → registered form.client_id form.redirect_uri before.clients ≡ true
      → secret_matches crypto oauth.consent_secret (trim form.token) ≡ true
      → Issued crypto oauth form code now before
          (issue_code crypto form code now db).1.tables
          (issue_code crypto form code now db).0
        ⊎ Withheld form before
            (issue_code crypto form code now db).1.tables
            (issue_code crypto form code now db).0
  unfolding issue_code
  Issued-code db before same known secret =
      elim (Result-cases (store_code code (pending_of form now) db).0) [
        | inl (u, e) ↦
            let (unused, left) = store_code_ok code (pending_of form now) db e in
            inl (record {
              known = known;
              secret = secret;
              unused = rw same at unused;
              left = state ∙ left ∙ rw same refl;
              redirects = redirected-Redirects _ _ _ (then_pure_ok recorded _ db u (rw e refl));
            })
        | inr (d, e) ↦ inr (record {
          left = state ∙ store_code_err code (pending_of form now) db d e ∙ same;
          answers = inl (
            server_error (bytes "cannot record the authorization code") d,
            then_pure_err recorded _ db
                (server_error (bytes "cannot record the authorization code") d) (rw e refl),
          );
        })
      ]
    where
      recorded : Act Response (Unit {0})
      recorded =
          map_error (server_error (bytes "cannot record the authorization code"))
            (store_code code (pending_of form now))

      state :
          (issue_code crypto form code now db).1.tables
          ≡ (store_code code (pending_of form now) db).1.tables
      state = ap (λ (d : Db). d.tables) (then_pure_state recorded _ db)

  -- Every submitted consent form either stores the code, where the redirect URI is registered for
  -- the client and the trimmed token matches the secret, or stores nothing: then it is answered with
  -- an error, or with the page again as unauthorized. A code that is stored is answered with the
  -- redirect that carries it where its location is a header value, and with 500 where it is not: then
  -- the code stays although nobody has it.
  pub authorize_submit_lem :
      (db : Db)
      → Issued crypto oauth form code now db.tables
          (authorize_submit crypto oauth form code now db).1.tables
          (authorize_submit crypto oauth form code now db).0
        ⊎ Withheld form db.tables
            (authorize_submit crypto oauth form code now db).1.tables
            (authorize_submit crypto oauth form code now db).0
  unfolding authorize_submit decide_consent
  authorize_submit_lem db =
      let same = (validate_client-IsQuiet form.client_id form.redirect_uri).at db in
      let matches = secret_matches crypto oauth.consent_secret (trim form.token) in
      elim (Result-cases (validate_client form.client_id form.redirect_uri db).0) [
        | inr (e, failed) ↦ rw failed (inr (record { left = same; answers = inl (e, refl) }))
        | inl (u, passed) ↦ rw passed (elim (Bool-cases matches) [
          | inl right ↦ rw right (
              Issued-code (validate_client form.client_id form.redirect_uri db).1 db.tables same
                (validate_client_ok form.client_id form.redirect_uri db passed) right)
          | inr wrong ↦ rw wrong (inr (record { left = same; answers = inr refl }))
        ])
      ]
