-- ===== src/Service/Examples.antt =====
-- The whole service: a client registers, consents and is let in.
use local_mcp.Config.{Config}
use local_mcp.Server
use local_mcp.Server.{World}
use local_mcp.Server.Examples.{system, sdk, draws, write, world}
use local_mcp.Server.Touches.{Touches}
use local_mcp.Service.Tools.{settings, post_tool_call, post_tool_call-Touches}
use local_mcp.Common.{
  none, ℕ, ◌*◌, ◌≤◌, ◌≡◌, ◌≢◌, ◌⊎◌, refl, inl, inr, ap, Bool, true, some, List, [], ◌∷◌, ◌++◌,
}
use local_mcp.Common.Int.{pos}
use local_mcp.Common.Str.{
  Str, bytes, str_eq, str_eq_iff, strip_prefix, trim, trim_start, trim_reversed,
}
use local_mcp.Common.Eq.{str_Eq}
use local_mcp.Common.Result.{ok}
use local_mcp.Json.{Json, object, field, array, item, end, close, string, get}
use local_mcp.Http.{Response, respond, success, empty}
use local_mcp.Table
use local_mcp.Table.{delete_where}
use local_mcp.Store
use local_mcp.Store.Clock.{SystemTime, second, to_epoch, from_epoch}
use local_mcp.Store.Tables.{
  insert_client, select_redirect_uris, insert_code, delete_code_returning, insert_token,
  delete_expired_tokens, delete_expired_codes, select_token,
}
use local_mcp.Store.Engine.{Db, Act, pure, lock, execute, transaction}
use local_mcp.Store.Open.{create_tables}
use local_mcp.OAuth.{
  Crypto, ConsentForm, TokenRequest, secret_matches, requested_uris, register_uris, register,
  check_uri, validate_client, issue_code, decide_consent, check_grant,
}
use local_mcp.OAuth.Consent.{IsConstantTimeEq}
use local_mcp.Auth.{Header, token_matches, oauth_accepts, accepted, guard}
use local_mcp.Service.{
  Settings, auth_state, Request, post_register, post_authorize, post_token, serve,
}
use local_mcp.Service.Origin.{IsAmong}
use local_mcp.Service.Consent.{Entitled}
use local_mcp.Service.Threads.{
  Event, arrives, advances, restarts, Running, redeem, issue_token, advance_thread, advance_at,
  happen, interleave, arrivals,
}
use local_mcp.Service.Threads.Admission.{
  guard-interleave, guard-interleave_unconsented, guard-interleave_untrimmed,
}
use local_mcp.Service.Threads.Counting.{consent_count, interleave-rows}
use local_mcp.Service.Threads.Rows.{rows}

abbrev crypto : Crypto
crypto = record { ct_eq = str_eq; sha256 = λ s. s; base64_url = λ s. s; header_error = λ s. none }

crypto-IsConstantTimeEq : IsConstantTimeEq crypto
crypto-IsConstantTimeEq = record { ct_eq_iff = λ a b same. str_eq_iff a b }

abbrev parses : Str → Bool
parses s = true

abbrev config : Settings
config = record { token = bytes "secret"; public_url = some (bytes "https://mcp") }

abbrev fresh : Db
fresh = record {
  tables = record { clients = []; codes = []; tokens = []; sessions = [] };
  faults = [];
}

abbrev body : Json
body = object (field (bytes "redirect_uris") (array (item (string (bytes "https://a")) end)) close)

abbrev form : Str → ConsentForm
form secret = record {
  client_id = bytes "c";
  redirect_uri = bytes "https://a";
  state = [];
  code_challenge = bytes "x";
  code_challenge_method = bytes "S256";
  token = secret;
}

abbrev request : TokenRequest
request = record {
  grant_type = bytes "authorization_code";
  code = bytes "k";
  redirect_uri = bytes "https://a";
  code_verifier = bytes "x";
}

abbrev at : ℕ → SystemTime
at s = pos (s * second)

-- The flow, with a restart in it, while a second request for the same code comes between the two halves of the first.
abbrev mixed : Str → List Event
mixed secret =
    arrives (post_register (bytes "c") body)
    ∷ advances 0
    ∷ arrives (post_authorize (form secret) (bytes "k") (at 10))
    ∷ advances 0
    ∷ advances 0
    ∷ restarts []
    ∷ arrives (post_token request (bytes "t") (at 20) (at 20))
    ∷ arrives (post_token request (bytes "u") (at 20) (at 20))
    ∷ advances 1
    ∷ advances 0
    ∷ advances 0
    ∷ []

abbrev idle : Running
idle = record { threads = []; db = fresh }

abbrev next : Act Response Response
next = pure (respond success empty)

abbrev bearer : Str → Header
bearer t = some (bytes "Bearer " ++ t)

let_in :
    (guard crypto parses
      (auth_state config)
      (bearer (bytes "t"))
      (at 30)
      next
      (interleave crypto parses config (mixed (bytes "secret")) idle).db).0
    ≡ ok (respond success empty)
unfolding guard accepted token_matches oauth_accepts strip_prefix str_eq trim trim_start
    trim_reversed serve interleave happen advance_at advance_thread redeem issue_token create_tables
    register requested_uris get register_uris Store.register_client Store.insert_uris transaction
    lock execute insert_client Table.insert_or_ignore Table.find decide_consent validate_client
    Store.redirect_uris select_redirect_uris check_uri secret_matches issue_code Store.store_code
    insert_code Table.insert to_epoch check_grant Store.take_code delete_code_returning Table.erase
    from_epoch Store.store_token insert_token Store.token_is_valid delete_expired_tokens
    delete_expired_codes select_token delete_where
let_in = refl

guard-interleave_example :
    (raw : Str) × (bearer (bytes "t") ≡ some (bytes "Bearer " ++ raw))
    × ((trim raw ≡ config.token)
        ⊎ Entitled crypto config (arrivals (mixed (bytes "secret"))) (at 30) (trim raw))
guard-interleave_example =
    guard-interleave crypto parses config crypto-IsConstantTimeEq (mixed (bytes "secret")) idle refl
      refl refl (bearer (bytes "t")) (at 30) next (respond success empty) let_in

wrong_form : trim (bytes "guess") ≢ bytes "secret"
unfolding trim trim_start trim_reversed
wrong_form e = cc

abbrev token_of : Request → Str
token_of (post_authorize f code now) = f.token
token_of r = []

only_form :
    (f : ConsentForm) (code : Str) (now : SystemTime)
    → IsAmong (post_authorize f code now) (arrivals (mixed (bytes "guess")))
    → trim f.token ≢ bytes "secret"
only_form f code now (inl e) = cc
only_form f code now (inr (inl e)) =
    let same : f.token ≡ bytes "guess" = ap token_of e in rw same wrong_form
only_form f code now (inr (inr (inl e))) = cc
only_form f code now (inr (inr (inr (inl e)))) = cc
only_form f code now (inr (inr (inr (inr e)))) = elim e [ ]

known :
    (guard crypto parses
      (auth_state config)
      (bearer (bytes "secret"))
      (at 30)
      next
      (interleave crypto parses config (mixed (bytes "guess")) idle).db).0
    ≡ ok (respond success empty)
unfolding guard accepted token_matches strip_prefix str_eq trim trim_start trim_reversed
known = refl

guard-interleave_unconsented_example :
    (raw : Str) × (bearer (bytes "secret") ≡ some (bytes "Bearer " ++ raw))
    × (trim raw ≡ config.token)
guard-interleave_unconsented_example =
    guard-interleave_unconsented crypto parses config crypto-IsConstantTimeEq
      (mixed (bytes "guess")) idle refl refl refl only_form (bearer (bytes "secret")) (at 30) next
      (respond success empty) known

abbrev whole_config : Config Unit
whole_config = record (Server.Examples.config true) {
  token = config.token;
  public_url = config.public_url;
}

-- The client of the flow writes a file.
post_tool_call-Touches_example :
    let left : World Str =
      (post_tool_call crypto parses whole_config system sdk
        (bearer (bytes "t"))
        (at 30)
        []
        draws
        write
        (interleave crypto parses (settings whole_config) (mixed (bytes "secret")) idle).db
        world).0.1 in
    (left ≡ world)
    ⊎ ((presented : Str) × (bearer (bytes "t") ≡ some (bytes "Bearer " ++ presented))
        × ((trim presented ≡ config.token)
            ⊎ Entitled crypto
                (settings whole_config)
                (arrivals (mixed (bytes "secret")))
                (at 30)
                (trim presented))
        × Touches system.os whole_config.root world.disk left.disk)
post_tool_call-Touches_example =
    post_tool_call-Touches crypto parses whole_config crypto-IsConstantTimeEq
      (mixed (bytes "secret")) idle system sdk (bearer (bytes "t")) (at 30) [] draws write world
      refl refl refl

-- One consent, and one token for the two requests.
interleave-rows_example :
    rows (interleave crypto parses config (mixed (bytes "secret")) idle).db.tables
    ≤ consent_count crypto config (arrivals (mixed (bytes "secret")))
interleave-rows_example =
    interleave-rows crypto config parses (mixed (bytes "secret")) idle refl refl refl

one_consent : consent_count crypto config (arrivals (mixed (bytes "secret"))) ≡ 1
unfolding secret_matches str_eq trim trim_start trim_reversed
one_consent = refl

abbrev spaced : Settings
spaced = record { token = bytes " secret"; public_url = some (bytes "https://mcp") }

spaced_token : trim spaced.token ≢ spaced.token
unfolding trim trim_start trim_reversed
spaced_token e = cc

guard-interleave_untrimmed_example :
    (guard crypto parses
      (auth_state spaced)
      (bearer (bytes " secret"))
      (at 30)
      next
      (interleave crypto parses spaced (mixed (bytes " secret")) idle).db).0
    ≢ ok (respond success empty)
guard-interleave_untrimmed_example =
    guard-interleave_untrimmed crypto parses spaced crypto-IsConstantTimeEq
      (mixed (bytes " secret")) idle refl refl refl spaced_token (bearer (bytes " secret")) (at 30)
      next (respond success empty)
