-- ===== src/Store/Examples.antt =====
-- The store at concrete databases.
use local_mcp.Common.{ℕ, ◌*◌, ◌+◌, ◌≡◌, refl, true, false, not, some, List, [], ◌∷◌}
use local_mcp.Common.Int.{pos, leℤ}
use local_mcp.Common.Str.{bytes, str_eq}
use local_mcp.Common.Eq.{str_Eq}
use local_mcp.Common.Result.{ok}
use local_mcp.Table
use local_mcp.Store.Clock.{SystemTime, second, to_epoch, from_epoch}
use local_mcp.Store.Tables.{
  Tables, ClientRow, CodeRow, TokenRow, SessionRow, insert_code, delete_code_returning,
  insert_token, delete_expired_tokens, delete_expired_codes, select_token,
}
use local_mcp.Store.Engine.{Db, lock, execute}
use local_mcp.Store.{PendingCode, store_code, take_code, store_token, token_is_valid}
use local_mcp.Store.Keys.{HasKeys}
use local_mcp.Store.Calls
use local_mcp.Store.Calls.{run}
use local_mcp.Store.Tokens.{token_is_valid-store_token}

abbrev pub at : ℕ → SystemTime
at s = pos (s * second)

abbrev client : ClientRow
client = record { client_id = bytes "c"; redirect_uri = bytes "https://a" }

abbrev code : CodeRow
code = record {
  code = bytes "k";
  client_id = bytes "c";
  redirect_uri = bytes "https://a";
  code_challenge = bytes "x";
  expires_at = pos 700;
}

abbrev stale : TokenRow
stale = record { token = bytes "old"; expires_at = pos 50 }

abbrev fresh : TokenRow
fresh = record { token = bytes "t"; expires_at = pos 900 }

abbrev session : SessionRow
session = record { session_id = bytes "s"; initialize_params = bytes "{}"; last_seen = pos 80 }

abbrev pub tables : Tables
tables = record {
  clients = client ∷ [];
  codes = code ∷ [];
  tokens = stale ∷ fresh ∷ [];
  sessions = session ∷ [];
}

-- An engine that never fails.
abbrev pub db : Db
db = record { tables = tables; faults = [] }

-- One that begins the transaction and refuses its second statement.
abbrev pub faulty : Db
faulty = record { tables = tables; faults = false ∷ false ∷ false ∷ true ∷ [] }

abbrev pending : PendingCode
pending = record {
  client_id = bytes "c";
  redirect_uri = bytes "https://a";
  code_challenge = bytes "y";
  expires_at = pos (600 * second + 5);
}

pub tables-HasKeys : HasKeys tables
unfolding Table.find str_eq
tables-HasKeys = record {
  clients = (refl, tt);
  codes = (refl, tt);
  tokens = (refl, (refl, tt));
  sessions = (refl, tt);
}

took :
    (take_code (bytes "k") db).0
    ≡ ok (
        some (record {
          client_id = bytes "c";
          redirect_uri = bytes "https://a";
          code_challenge = bytes "x";
          expires_at = at 700;
        }))
unfolding take_code lock execute delete_code_returning Table.find str_eq from_epoch
took = refl

abbrev with_code : Db
with_code = (store_code (bytes "j") pending db).1

stored_code : (store_code (bytes "j") pending db).0 ≡ ok tt
unfolding store_code lock execute insert_code Table.insert Table.find str_eq
stored_code = refl

abbrev pending_back : PendingCode
pending_back = record pending { expires_at = at 600 }

taken_back : (take_code (bytes "j") with_code).0 ≡ ok (some pending_back)
unfolding take_code store_code lock execute insert_code delete_code_returning Table.insert
    Table.find Table.erase str_eq to_epoch from_epoch
taken_back = refl

checked : (token_is_valid (at 100) (bytes "t") db).0 ≡ ok true
unfolding token_is_valid lock execute delete_expired_tokens delete_expired_codes select_token
    Table.find Table.delete_where str_eq to_epoch
checked = refl

stored_token : (store_token (bytes "u") (at 500) db).0 ≡ ok tt
unfolding store_token lock execute insert_token Table.insert Table.find str_eq
stored_token = refl

token_checked :
    (token_is_valid (at 499) (bytes "u") (store_token (bytes "u") (at 500) db).1).0 ≡ ok true
unfolding token_is_valid store_token lock execute insert_token delete_expired_tokens
    delete_expired_codes select_token Table.insert Table.find Table.delete_where str_eq to_epoch
token_checked = refl

token_is_valid-store_token_example : true ≡ not (leℤ (to_epoch (at 500)) (to_epoch (at 499)))
token_is_valid-store_token_example =
    token_is_valid-store_token (bytes "u") (at 500) (at 499) db true tables-HasKeys stored_token
      token_checked

-- A code is stored, taken twice, and a token is issued and checked at its expiry.
abbrev history : List Calls.Call
history =
    Calls.store_code (bytes "j") pending
    ∷ Calls.take_code (bytes "j")
    ∷ Calls.take_code (bytes "j")
    ∷ Calls.store_token (bytes "u") (at 500)
    ∷ Calls.token_is_valid (at 500) (bytes "u")
    ∷ []
