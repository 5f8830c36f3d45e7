-- ===== src/Auth.antt =====
-- src/auth.rs: the bearer guard in front of the MCP endpoint.
pub mod Guard
mod Examples
use local_mcp.Common.{
  Bool, true, false, not, ◌&&◌, Option, none, some, List, [], ◌∷◌, ◌++◌, ◌==◌, length,
  if◌then◌else◌,
}
use local_mcp.Common.Str.{Str, bytes, strip_prefix, trim}
use local_mcp.Common.Result.{Result, ok, err, ok_or}
use local_mcp.Http.{Response, empty, respond, unauthorized}
use local_mcp.Store.Clock.{SystemTime}
use local_mcp.Store.Tables.{DbError}
use local_mcp.Store.Engine.{Db, Act, pure, lift, ◌>>=◌}
use local_mcp.Store
use local_mcp.OAuth.{Crypto, OAuth, resource_metadata_url}

pub record AuthState : Type 0 where
  -- `config.token`
  pub token : Str
  pub oauth : Option OAuth

-- A header that is there and readable, as `headers().get(name).and_then(|v| v.to_str().ok())`
-- answers.
abbrev pub Header : Type 0
Header = Option Str

-- `header`
unfoldable pub header_or_dash : Header → Str
header_or_dash none = bytes "-"
header_or_dash (some value) = value

unfoldable pub token_matches : Crypto → Str → Str → Bool
token_matches crypto expected presented =
    length expected == length presented && crypto.ct_eq expected presented

-- `format!(r#"Bearer resource_metadata="{}""#, ...)`
abbrev pub challenge : OAuth → Str
challenge oauth = bytes "Bearer resource_metadata=\"" ++ resource_metadata_url oauth ++ bytes "\""

-- The response of a refusal. `parses` is the test of `http` whether a text can be a header's value.
unfoldable pub refusal : (Str → Bool) → Option OAuth → Response
refusal parses none = respond unauthorized empty
refusal parses (some oauth) =
    if parses (challenge oauth)
    then record (respond unauthorized empty) {
      headers = (bytes "www-authenticate", challenge oauth) ∷ [];
    }
    else respond unauthorized empty

abbrev pub or_false : Result DbError Bool → Bool
or_false (ok b) = b
or_false (err e) = false

-- The second half of `accepted`: a database that cannot be read denies everyone.
unfoldable pub oauth_accepts : Option OAuth → SystemTime → Str → Act Response Bool
oauth_accepts none now presented db = (ok false, db)
oauth_accepts (some oauth) now presented db =
    let (r, db') = Store.token_is_valid now presented db in (ok (or_false r), db')

unfoldable pub accepted : Crypto → AuthState → SystemTime → Str → Act Response Bool
accepted crypto state now presented =
    if token_matches crypto state.token presented
    then pure true
    else oauth_accepts state.oauth now presented

abbrev pub strip_bearer : Header → Option Str
strip_bearer none = none
strip_bearer (some value) = strip_prefix (bytes "Bearer ") value

-- `next` is the rest of the stack: it runs only for an accepted request.
unfoldable pub guard :
    {A : Type 0}
    → Crypto
    → (Str → Bool)
    → AuthState
    → Header
    → SystemTime
    → Act Response A
    → Act Response A
guard crypto parses state authorization now next = do
  presented ← lift (ok_or (refusal parses state.oauth) (strip_bearer authorization))
  is_accepted ← accepted crypto state now (trim presented)
  if is_accepted then next else lift (err (refusal parses state.oauth))
