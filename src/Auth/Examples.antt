-- ===== src/Auth/Examples.antt =====
-- The guard at concrete requests.
use local_mcp.Common.{◌≡◌, refl, inl, ap, ◌∙◌, Bool, true, none, some, []}
use local_mcp.Common.Int.{pos}
use local_mcp.Common.Str.{
  Str, bytes, str_eq, str_eq_iff, strip_prefix, strip_prefix-append, trim, trim_start,
  trim_reversed,
}
use local_mcp.Common.Result.{ok, err}
use local_mcp.Http.{Response, respond, success, empty}
use local_mcp.Store.Engine.{Db, Act, pure}
use local_mcp.OAuth.{Crypto}
use local_mcp.OAuth.Consent.{IsConstantTimeEq}
use local_mcp.Auth.{
  AuthState, Header, refusal, token_matches, oauth_accepts, accepted, strip_bearer, guard,
}
use local_mcp.Auth.Guard.{Admitted, guard_ok, guard_refuses}

abbrev crypto : Crypto
crypto = record { ct_eq = str_eq; sha256 = λ s. s; base64_url = λ s. s; header_error = λ s. none }

crypto-IsConstantTimeEq : IsConstantTimeEq crypto
crypto-IsConstantTimeEq = record { ct_eq_iff = λ a b same. str_eq_iff a b }

abbrev state : AuthState
state = record { token = bytes "secret"; oauth = none }

abbrev db : Db
db = record {
  tables = record { clients = []; codes = []; tokens = []; sessions = [] };
  faults = [];
}

abbrev parses : Str → Bool
parses s = true

abbrev header : Header
header = some (bytes "Bearer secret ")

abbrev next : Act Response Response
next = pure (respond success empty)

passed : (guard crypto parses state header (pos 0) next db).0 ≡ ok (respond success empty)
unfolding guard accepted token_matches oauth_accepts strip_prefix str_eq trim trim_start
    trim_reversed
passed = refl

guard_ok_example : Admitted state header (pos 0) db
guard_ok_example =
    guard_ok crypto parses state header (pos 0) next db crypto-IsConstantTimeEq
      (respond success empty) passed

trimmed : trim (bytes "secret ") ≡ bytes "secret"
unfolding trim trim_start trim_reversed
trimmed = refl

admitted : Admitted state header (pos 0) db
admitted = record { raw = bytes "secret "; bearer = refl; known = inl trimmed }

basic_outside : ¬ Admitted state (some (bytes "Basic x")) (pos 0) db
unfolding strip_prefix
basic_outside a =
    let clash : none ≡ some a.raw =
      ap (λ (h : Header). strip_bearer h) a.bearer ∙ strip_prefix-append (bytes "Bearer ") a.raw in
    cc

guard_refuses_example :
    (db' : Db) × ((rest : Act Response Response)
      → guard crypto parses state (some (bytes "Basic x")) (pos 0) rest db
        ≡ (err (refusal parses none), db'))
guard_refuses_example =
    guard_refuses crypto parses state (some (bytes "Basic x")) (pos 0) db crypto-IsConstantTimeEq
      basic_outside
