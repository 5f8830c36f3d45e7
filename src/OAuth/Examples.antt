-- ===== src/OAuth/Examples.antt =====
-- The authorization server at a concrete database, with primitives that can be computed.
use local_mcp.Common.{
  suc, length, ◌*◌, ◌≡◌, ◌≢◌, ◌⊎◌, refl, none, some, [], ◌∷◌, ◌==◌, any, if◌then◌else◌,
}
use local_mcp.Common.Int.{pos}
use local_mcp.Common.Str.{bytes, str_eq, str_eq_iff, contains_byte, trim, trim_start, trim_reversed}
use local_mcp.Common.Eq.{str_Eq}
use local_mcp.Common.Result.{ok, err}
use local_mcp.Http.{Response, respond, text, internal_server_error}
use local_mcp.Table
use local_mcp.Store.Clock.{SystemTime, second, from_epoch}
use local_mcp.Store.Tables.{
  CodeRow, insert_token, insert_code, select_redirect_uris, delete_code_returning,
}
use local_mcp.Store.Engine.{Db, lock, execute}
use local_mcp.Store
use local_mcp.OAuth.{
  Crypto, OAuth, ConsentForm, TokenRequest, token_answer, invalid_grant, check_grant, exchange,
  token, authorize_submit, validate_client, decide_consent, secret_matches, issue_code, check_uri,
  location,
}
use local_mcp.OAuth.Consent.{IsConstantTimeEq, Issued, Withheld, authorize_submit_lem}
use local_mcp.OAuth.Exchange.{Exchanged, token_ok}
use local_mcp.OAuth.Refusal.{Refused, token_err, token_replay}

abbrev pub crypto : Crypto
crypto = record {
  ct_eq = str_eq;
  sha256 = λ s. s;
  base64_url = λ s. s;
  header_error =
      λ s. if any (λ b. b == 10) s then some (bytes "failed to parse header value") else none;
}

pub crypto-IsConstantTimeEq : IsConstantTimeEq crypto
crypto-IsConstantTimeEq = record { ct_eq_iff = λ a b same. str_eq_iff a b }

abbrev code : CodeRow
code = record {
  code = bytes "k";
  client_id = bytes "c";
  redirect_uri = bytes "https://a";
  code_challenge = bytes "x";
  expires_at = pos 700;
}

abbrev db : Db
db = record {
  tables = record {
    clients = record { client_id = bytes "c"; redirect_uri = bytes "https://a" } ∷ [];
    codes = code ∷ [];
    tokens = [];
    sessions = [];
  };
  faults = [];
}

abbrev request : TokenRequest
request = record {
  grant_type = bytes "authorization_code";
  code = bytes "k";
  redirect_uri = bytes "https://a";
  code_verifier = bytes "x";
}

-- With another verifier.
abbrev thief : TokenRequest
thief = record request { code_verifier = bytes "y" }

abbrev now : SystemTime
now = pos (100 * second)

granted : (token crypto request (bytes "t") now now db).0 ≡ ok (token_answer (bytes "t"))
unfolding token exchange check_grant Store.take_code Store.store_token lock execute
    delete_code_returning insert_token Table.find Table.insert Table.erase str_eq from_epoch
granted = refl

token_ok_example :
    (request.grant_type ≡ bytes "authorization_code")
    × (token_answer (bytes "t") ≡ token_answer (bytes "t"))
    × Exchanged crypto request
        (bytes "t")
        now
        now
        db.tables
        (token crypto request (bytes "t") now now db).1.tables
token_ok_example = token_ok crypto request (bytes "t") now now db (token_answer (bytes "t")) granted

abbrev wrong_verifier : Response
wrong_verifier = invalid_grant (bytes "code_verifier does not match code_challenge")

refused : (token crypto thief (bytes "t") now now db).0 ≡ err wrong_verifier
unfolding token exchange check_grant Store.take_code Store.store_token lock execute
    delete_code_returning insert_token Table.find Table.insert Table.erase str_eq from_epoch
refused = refl

token_err_example :
    Refused (bytes "k") db.tables (token crypto thief (bytes "t") now now db).1.tables
token_err_example = token_err crypto thief (bytes "t") now now db wrong_verifier refused

token_replay_example :
    (token crypto request (bytes "u") now now (token crypto request (bytes "t") now now db).1).0
    ≢ ok (token_answer (bytes "u"))
token_replay_example =
    token_replay crypto request request (bytes "t") (bytes "u") now now now now db
      (token_answer (bytes "t")) refl granted (token_answer (bytes "u"))

abbrev oauth : OAuth
oauth = record { issuer = bytes "https://mcp"; consent_secret = bytes "secret" }

abbrev form : ConsentForm
form = record {
  client_id = bytes "c";
  redirect_uri = bytes "https://a";
  state = [];
  code_challenge = bytes "x";
  code_challenge_method = bytes "S256";
  token = bytes " secret ";
}

authorize_submit_lem_example :
    Issued crypto oauth form
      (bytes "j")
      now
      db.tables
      (authorize_submit crypto oauth form (bytes "j") now db).1.tables
      (authorize_submit crypto oauth form (bytes "j") now db).0
    ⊎ Withheld form db.tables
        (authorize_submit crypto oauth form (bytes "j") now db).1.tables
        (authorize_submit crypto oauth form (bytes "j") now db).0
authorize_submit_lem_example = authorize_submit_lem crypto oauth form (bytes "j") now db

-- A line break in the state: the answer is 500, and the code is in the database.
abbrev broken : ConsentForm
broken = record form { state = 10 ∷ [] }

broken_answer :
    (authorize_submit crypto oauth broken (bytes "j") now db).0
    ≡ ok (respond internal_server_error (text (bytes "failed to parse header value")))
unfolding authorize_submit validate_client decide_consent secret_matches issue_code check_uri
    Store.redirect_uris Store.store_code lock execute select_redirect_uris insert_code Table.insert
    Table.find str_eq trim trim_start trim_reversed location contains_byte
broken_answer = refl

broken_left :
    length (authorize_submit crypto oauth broken (bytes "j") now db).1.codes ≡ suc (length db.codes)
unfolding authorize_submit validate_client decide_consent secret_matches issue_code check_uri
    Store.redirect_uris Store.store_code lock execute select_redirect_uris insert_code Table.insert
    Table.find str_eq trim trim_start trim_reversed location contains_byte
broken_left = refl
