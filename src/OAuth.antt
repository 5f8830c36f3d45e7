-- ===== src/OAuth.antt =====
-- src/oauth.rs: the authorization server. The handlers act on the database; the random identifiers
-- and the times that they draw are arguments, as are the primitives of `subtle`, `sha2` and `base64`.
pub mod Page
pub mod Metadata
pub mod Exchange
pub mod Refusal
pub mod Consent
mod Examples
use local_mcp.Common.{
  ℕ, ◌+◌, ◌*◌, Bool, true, false, not, ◌&&◌, ◌||◌, Option, none, some, List, [], ◌∷◌, ◌++◌, ◌==◌,
  length, any, if◌then◌else◌,
}
use local_mcp.Common.Int.{ℤ, ltℤ, add_ℕ}
use local_mcp.Common.Str.{Str, bytes, str_eq, is_empty, contains_byte, trim}
use local_mcp.Common.Result.{Result, ok, err, ok_or}
use local_mcp.Json.{
  Json, string, array, object, number, close, field, item, end, get, as_array, strings, of_strings,
}
use local_mcp.Http.{
  Response, html, text, json, respond, success, found, bad_request, unauthorized,
  internal_server_error,
}
use local_mcp.Store.Clock.{SystemTime, Duration, from_secs}
use local_mcp.Store.Tables.{DbError}
use local_mcp.Store.Engine.{Act, pure, lift, map_error, ◌>>=◌, ◌>>◌}
use local_mcp.Store.{
  PendingCode, register_client, redirect_uris, store_code, take_code, store_token, token_is_valid,
}
use Page.{AuthorizeParams, consent_page}

-- Third-party primitives.
pub record Crypto : Type 0 where
  -- `a.ct_eq(b)` of `subtle`
  pub ct_eq : Str → Str → Bool
  pub sha256 : Str → Str
  -- `URL_SAFE_NO_PAD.encode`
  pub base64_url : Str → Str
  -- the error of `HeaderValue::try_from`, which a value that is no header gives
  pub header_error : Str → Option Str

abbrev pub code_ttl : Duration
code_ttl = from_secs 600

abbrev pub token_ttl_secs : ℕ
token_ttl_secs = 60 * 60 * 24 * 30

pub record OAuth : Type 0 where
  pub issuer : Str
  pub consent_secret : Str

-- `OAuth::resource_metadata_url`
unfoldable pub resource_metadata_url : OAuth → Str
resource_metadata_url oauth = oauth.issuer ++ bytes "/.well-known/oauth-protected-resource"

unfoldable pub secret_matches : Crypto → Str → Str → Bool
secret_matches crypto expected presented =
    length expected == length presented && crypto.ct_eq expected presented

-- `json!([s])`
abbrev pub one : Str → Json
one s = array (item (string s) end)

unfoldable pub oauth_error : ℕ → Str → Str → Response
oauth_error status code description = respond status (
    json (
      object (
        field (bytes "error") (string code)
          (field (bytes "error_description") (string description) close))))

abbrev pub server_error : Str → DbError → Response
server_error description error =
    oauth_error internal_server_error (bytes "server_error") description

abbrev array_strings : Option Json → List Str
array_strings none = []
array_strings (some (array items)) = strings items
array_strings (some _) = []

-- `body.get("redirect_uris").and_then(Value::as_array).map(...).unwrap_or_default()`
unfoldable pub requested_uris : Json → List Str
requested_uris body = array_strings (get (bytes "redirect_uris") body)

-- What `register` answers.
unfoldable pub registration : Str → List Str → Json
registration client_id redirect_uris = object (
    field (bytes "client_id") (string client_id) (
      field (bytes "redirect_uris") (array (of_strings redirect_uris)) (
        field (bytes "token_endpoint_auth_method") (string (bytes "none")) (
          field (bytes "grant_types") (one (bytes "authorization_code"))
            (field (bytes "response_types") (one (bytes "code")) close)))))

-- `register` behind the reading of its body.
unfoldable pub register_uris : Str → List Str → Act Response Json
register_uris client_id [] = lift (
    err (
      oauth_error bad_request (bytes "invalid_redirect_uri")
        (bytes "at least one redirect_uri is required")))
register_uris client_id (uri ∷ uris) = do
  map_error (server_error (bytes "cannot record the registered client"))
      (register_client client_id (uri ∷ uris))
  pure (registration client_id (uri ∷ uris))

unfoldable pub register : Str → Json → Act Response Json
register client_id body = register_uris client_id (requested_uris body)

-- The match at the end of `validate_client`.
unfoldable pub check_uri : Option (List Str) → Str → Result Response (Unit {0})
check_uri (some uris) redirect_uri =
    if any (λ u. str_eq u redirect_uri) uris
    then ok tt
    else err (
        oauth_error bad_request (bytes "invalid_request")
          (bytes "redirect_uri was not registered for this client"))
check_uri none redirect_uri =
    err (oauth_error bad_request (bytes "invalid_client") (bytes "unknown client_id"))

unfoldable pub validate_client : Str → Str → Act Response (Unit {0})
validate_client client_id redirect_uri = do
  registered ←
      map_error (server_error (bytes "cannot read the registered clients"))
        (redirect_uris client_id)
  lift (check_uri registered redirect_uri)

unfoldable pub authorize_form : AuthorizeParams → Act Response Response
authorize_form params = do
  validate_client params.client_id params.redirect_uri
  if not (str_eq params.code_challenge_method (bytes "S256")) || is_empty params.code_challenge
      then lift (
          err (
            oauth_error bad_request (bytes "invalid_request") (bytes "PKCE with S256 is required")))
      else pure (respond success (html (consent_page params none)))

pub record ConsentForm : Type 0 where
  pub client_id : Str
  pub redirect_uri : Str
  pub state : Str
  pub code_challenge : Str
  pub code_challenge_method : Str
  pub token : Str

-- The page that a wrong token is answered with.
unfoldable pub refusal_page : ConsentForm → Str
refusal_page form =
    consent_page
      (record {
        client_id = form.client_id;
        redirect_uri = form.redirect_uri;
        state = form.state;
        code_challenge = form.code_challenge;
        code_challenge_method = form.code_challenge_method;
      })
      (some (bytes "That token is not correct."))

-- Where the browser is sent with the code.
unfoldable pub location : ConsentForm → Str → Str
location form code =
    (form.redirect_uri
      ++ (if contains_byte b'?' form.redirect_uri then bytes "&" else bytes "?")
      ++ bytes "code="
      ++ code)
    ++ (if not (is_empty form.state) then bytes "&state=" ++ form.state else [])

-- The row that a consent writes.
abbrev pub pending_of : ConsentForm → SystemTime → PendingCode
pending_of form now = record {
  client_id = form.client_id;
  redirect_uri = form.redirect_uri;
  code_challenge = form.code_challenge;
  expires_at = add_ℕ now code_ttl;
}

-- `into_response` of the redirect: axum answers 500 where the location is no header value.
abbrev pub redirected : Option Str → Str → Response
redirected none location = record {
  status = found;
  headers = (bytes "location", location) ∷ [];
  body = text (bytes "authorized");
}
redirected (some error) location = respond internal_server_error (text error)

unfoldable pub issue_code : Crypto → ConsentForm → Str → SystemTime → Act Response Response
issue_code crypto form code now = do
  map_error (server_error (bytes "cannot record the authorization code"))
      (store_code code (pending_of form now))
  pure (redirected (crypto.header_error (location form code)) (location form code))

-- `authorize_submit` behind `validate_client`
unfoldable pub decide_consent :
    Crypto → OAuth → ConsentForm → Str → SystemTime → Act Response Response
decide_consent crypto oauth form code now =
    if not (secret_matches crypto oauth.consent_secret (trim form.token))
    then pure (respond unauthorized (html (refusal_page form)))
    else issue_code crypto form code now

unfoldable pub authorize_submit :
    Crypto → OAuth → ConsentForm → Str → SystemTime → Act Response Response
authorize_submit crypto oauth form code now = do
  validate_client form.client_id form.redirect_uri
  decide_consent crypto oauth form code now

pub record TokenRequest : Type 0 where
  pub grant_type : Str
  pub code : Str
  pub redirect_uri : Str
  pub code_verifier : Str

abbrev pub invalid_grant : Str → Response
invalid_grant description = oauth_error bad_request (bytes "invalid_grant") description

-- The three checks between the taking of a code and the issue of a token.
unfoldable pub check_grant :
    Crypto → TokenRequest → PendingCode → SystemTime → Result Response (Unit {0})
check_grant crypto request pending now =
    if ltℤ pending.expires_at now
    then err (invalid_grant (bytes "authorization code has expired"))
    else if not (str_eq pending.redirect_uri request.redirect_uri)
    then err (invalid_grant (bytes "redirect_uri does not match the authorization request"))
    else if not
        (str_eq (crypto.base64_url (crypto.sha256 request.code_verifier)) pending.code_challenge)
    then err (invalid_grant (bytes "code_verifier does not match code_challenge"))
    else ok tt

-- What a token is answered with. The number is `TOKEN_TTL.as_secs()`.
unfoldable pub token_answer : Str → Json
token_answer access_token = object (
    field (bytes "access_token") (string access_token) (
      field (bytes "token_type") (string (bytes "Bearer")) (
        field (bytes "expires_in") (number (bytes "2592000"))
          (field (bytes "scope") (string (bytes "mcp")) close))))

-- `token` behind the check of the grant type. The handler reads the clock twice.
unfoldable pub exchange : Crypto → TokenRequest → Str → SystemTime → SystemTime → Act Response Json
exchange crypto request access_token now later = do
  taken ←
      map_error (server_error (bytes "cannot read the authorization code")) (take_code request.code)
  pending ← lift (ok_or (invalid_grant (bytes "unknown or already-used authorization code")) taken)
  lift (check_grant crypto request pending now)
  map_error (server_error (bytes "cannot record the issued token"))
      (store_token access_token (add_ℕ later (from_secs token_ttl_secs)))
  pure (token_answer access_token)

unfoldable pub token : Crypto → TokenRequest → Str → SystemTime → SystemTime → Act Response Json
token crypto request access_token now later =
    if not (str_eq request.grant_type (bytes "authorization_code"))
    then lift (
        err (
          oauth_error bad_request (bytes "unsupported_grant_type")
            (bytes "only authorization_code is supported")))
    else exchange crypto request access_token now later
