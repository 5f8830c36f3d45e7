-- ===== src/Store/Tables.antt =====
-- The tables that `Store::open` creates, and one function for each SQL statement of src/store.rs:
-- what it answers, and what it leaves. SQLite itself is not modelled.
use local_mcp.Common.{ℕ, Bool, Option, none, some, List, [], ◌∷◌, if◌then◌else◌}
use local_mcp.Common.Int.{ℤ, leℤ}
use local_mcp.Common.Str.{Str, str_eq}
use local_mcp.Common.Eq.{str_Eq, pair_Eq}
use local_mcp.Common.Result.{Result, ok, err}
use local_mcp.Table

pub record ClientRow : Type 0 where
  pub client_id : Str
  pub redirect_uri : Str

pub record CodeRow : Type 0 where
  pub code : Str
  pub client_id : Str
  pub redirect_uri : Str
  pub code_challenge : Str
  pub expires_at : ℤ

pub record TokenRow : Type 0 where
  pub token : Str
  pub expires_at : ℤ

pub record SessionRow : Type 0 where
  pub session_id : Str
  pub initialize_params : Str
  pub last_seen : ℤ

pub record Tables : Type 0 where
  pub clients : List ClientRow
  pub codes : List CodeRow
  pub tokens : List TokenRow
  pub sessions : List SessionRow

-- A lock that is poisoned, a statement that the engine refuses, a key that is taken.
pub data DbError : Type 0 where
  poisoned refused conflict : DbError

-- The primary keys.
abbrev pub client_key : ClientRow → Str × Str
client_key r = (r.client_id, r.redirect_uri)

abbrev pub code_key : CodeRow → Str
code_key r = r.code

abbrev pub token_key : TokenRow → Str
token_key r = r.token

abbrev pub session_key : SessionRow → Str
session_key r = r.session_id

abbrev pub Effect : Type 0 → Type 0
Effect A = Tables → Result DbError (A × Tables)

-- INSERT OR IGNORE INTO clients
unfoldable pub insert_client : ClientRow → Effect Unit
insert_client r t = ok (tt, record t { clients = Table.insert_or_ignore client_key r t.clients })

abbrev pub uris_of : Str → List ClientRow → List Str
uris_of client_id [] = []
uris_of client_id (r ∷ rows) =
    let rest = uris_of client_id rows in
    if str_eq r.client_id client_id then r.redirect_uri ∷ rest else rest

-- SELECT redirect_uri FROM clients WHERE client_id = ?1
unfoldable pub select_redirect_uris : Str → Effect (List Str)
select_redirect_uris client_id t = ok (uris_of client_id t.clients, t)

-- INSERT INTO codes
unfoldable pub insert_code : CodeRow → Effect Unit
insert_code r t = elim (Table.insert code_key r t.codes) [
  | none ↦ err conflict
  | some rows ↦ ok (tt, record t { codes = rows })
]

-- DELETE FROM codes WHERE code = ?1 RETURNING ...
unfoldable pub delete_code_returning : Str → Effect (Option CodeRow)
delete_code_returning code t =
    ok (Table.find code_key code t.codes, record t { codes = Table.erase code_key code t.codes })

-- INSERT INTO tokens
unfoldable pub insert_token : TokenRow → Effect Unit
insert_token r t = elim (Table.insert token_key r t.tokens) [
  | none ↦ err conflict
  | some rows ↦ ok (tt, record t { tokens = rows })
]

abbrev pub token_expired : ℤ → TokenRow → Bool
token_expired now r = leℤ r.expires_at now

abbrev pub code_expired : ℤ → CodeRow → Bool
code_expired now r = leℤ r.expires_at now

-- DELETE FROM tokens WHERE expires_at <= ?1
unfoldable pub delete_expired_tokens : ℤ → Effect Unit
delete_expired_tokens now t =
    ok (tt, record t { tokens = Table.delete_where (token_expired now) t.tokens })

-- DELETE FROM codes WHERE expires_at <= ?1
unfoldable pub delete_expired_codes : ℤ → Effect Unit
delete_expired_codes now t =
    ok (tt, record t { codes = Table.delete_where (code_expired now) t.codes })

-- SELECT 1 FROM tokens WHERE token = ?1
unfoldable pub select_token : Str → Effect (Option TokenRow)
select_token token t = ok (Table.find token_key token t.tokens, t)

-- INSERT INTO sessions ... ON CONFLICT(session_id) DO UPDATE
unfoldable pub upsert_session : SessionRow → Effect Unit
upsert_session r t = ok (tt, record t { sessions = Table.upsert session_key r t.sessions })

abbrev pub touch : ℤ → SessionRow → SessionRow
touch now r = record r { last_seen = now }

-- UPDATE sessions SET last_seen = ?2 WHERE session_id = ?1 RETURNING initialize_params
unfoldable pub update_session_returning : Str → ℤ → Effect (Option SessionRow)
update_session_returning id now t = ok (
  Table.find session_key id t.sessions,
  record t { sessions = Table.update session_key id (touch now) t.sessions },
)

-- DELETE FROM sessions WHERE session_id = ?1
unfoldable pub delete_session_row : Str → Effect Unit
delete_session_row id t = ok (tt, record t { sessions = Table.erase session_key id t.sessions })

abbrev pub idle_since : ℤ → SessionRow → Bool
idle_since cutoff r = leℤ r.last_seen cutoff

-- DELETE FROM sessions WHERE last_seen <= ?1, with the number of rows that went
unfoldable pub delete_idle_sessions : ℤ → Effect ℕ
delete_idle_sessions cutoff t = ok (
  Table.count_where (idle_since cutoff) t.sessions,
  record t { sessions = Table.delete_where (idle_since cutoff) t.sessions },
)
