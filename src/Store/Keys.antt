-- ===== src/Store/Keys.antt =====
-- The primary keys of the tables of src/store.rs, through each statement.
use local_mcp.Common.{refl, Option-cases, inl, inr, List}
use local_mcp.Common.Int.{ℤ}
use local_mcp.Common.Str.{Str}
use local_mcp.Common.Eq.{str_Eq, pair_Eq}
use local_mcp.Table
use local_mcp.Table.{IsKeyed}
use local_mcp.Table.Laws.{
  insert-IsKeyed, insert_or_ignore-IsKeyed, erase-IsKeyed, delete_where-IsKeyed, upsert-IsKeyed,
  update-IsKeyed,
}
use local_mcp.Store.Tables.{
  Tables, client_key, code_key, token_key, session_key, ClientRow, CodeRow, TokenRow, SessionRow,
  insert_client, select_redirect_uris, insert_code, delete_code_returning, insert_token,
  delete_expired_tokens, delete_expired_codes, select_token, upsert_session,
  update_session_returning, delete_session_row, delete_idle_sessions, token_expired, code_expired,
  idle_since, touch,
}
use local_mcp.Store.Keeps.{Keeps, KeepsEffect, Left, keeps_rules}

-- The primary key of every table.
pub record HasKeys (t : Tables) : Type 0 where
  pub clients : IsKeyed client_key t.clients
  pub codes : IsKeyed code_key t.codes
  pub tokens : IsKeyed token_key t.tokens
  pub sessions : IsKeyed session_key t.sessions

pub insert_client-HasKeys : (r : ClientRow) → KeepsEffect HasKeys (insert_client r)
unfolding insert_client
insert_client-HasKeys r = record {
  after = λ t k. record {
    clients = insert_or_ignore-IsKeyed client_key r t.clients k.clients;
    codes = k.codes;
    tokens = k.tokens;
    sessions = k.sessions;
  };
}

pub select_redirect_uris-HasKeys : (id : Str) → KeepsEffect HasKeys (select_redirect_uris id)
unfolding select_redirect_uris
select_redirect_uris-HasKeys id = record { after = λ t k. k }

inserted_code-HasKeys : (r : CodeRow) (t : Tables) (k : HasKeys t) → Left HasKeys (insert_code r t)
unfolding insert_code
inserted_code-HasKeys r t k = elim (Option-cases (Table.insert code_key r t.codes)) [
  | inl taken ↦ rw (taken, Left) tt
  | inr (rows, e) ↦
      rw (e, Left)
        (record {
          clients = k.clients;
          codes = insert-IsKeyed code_key r t.codes rows e k.codes;
          tokens = k.tokens;
          sessions = k.sessions;
        })
]

pub insert_code-HasKeys : (r : CodeRow) → KeepsEffect HasKeys (insert_code r)
insert_code-HasKeys r = record { after = inserted_code-HasKeys r }

inserted_token-HasKeys :
    (r : TokenRow) (t : Tables) (k : HasKeys t) → Left HasKeys (insert_token r t)
unfolding insert_token
inserted_token-HasKeys r t k = elim (Option-cases (Table.insert token_key r t.tokens)) [
  | inl taken ↦ rw (taken, Left) tt
  | inr (rows, e) ↦
      rw (e, Left)
        (record {
          clients = k.clients;
          codes = k.codes;
          tokens = insert-IsKeyed token_key r t.tokens rows e k.tokens;
          sessions = k.sessions;
        })
]

pub insert_token-HasKeys : (r : TokenRow) → KeepsEffect HasKeys (insert_token r)
insert_token-HasKeys r = record { after = inserted_token-HasKeys r }

pub delete_code_returning-HasKeys : (code : Str) → KeepsEffect HasKeys (delete_code_returning code)
unfolding delete_code_returning
delete_code_returning-HasKeys code = record {
  after = λ t k. record {
    clients = k.clients;
    codes = erase-IsKeyed code_key code t.codes k.codes;
    tokens = k.tokens;
    sessions = k.sessions;
  };
}

pub delete_expired_tokens-HasKeys : (now : ℤ) → KeepsEffect HasKeys (delete_expired_tokens now)
unfolding delete_expired_tokens
delete_expired_tokens-HasKeys now = record {
  after = λ t k. record {
    clients = k.clients;
    codes = k.codes;
    tokens = delete_where-IsKeyed token_key (token_expired now) t.tokens k.tokens;
    sessions = k.sessions;
  };
}

pub delete_expired_codes-HasKeys : (now : ℤ) → KeepsEffect HasKeys (delete_expired_codes now)
unfolding delete_expired_codes
delete_expired_codes-HasKeys now = record {
  after = λ t k. record {
    clients = k.clients;
    codes = delete_where-IsKeyed code_key (code_expired now) t.codes k.codes;
    tokens = k.tokens;
    sessions = k.sessions;
  };
}

pub select_token-HasKeys : (token : Str) → KeepsEffect HasKeys (select_token token)
unfolding select_token
select_token-HasKeys token = record { after = λ t k. k }

-- The four statements on sessions leave the other tables alone.
with_sessions :
    {t : Tables} (rows : List SessionRow)
    → HasKeys t
    → IsKeyed session_key rows
    → HasKeys (record t { sessions = rows })
with_sessions rows k s = record {
  clients = k.clients;
  codes = k.codes;
  tokens = k.tokens;
  sessions = s;
}

pub upsert_session-HasKeys : (r : SessionRow) → KeepsEffect HasKeys (upsert_session r)
unfolding upsert_session
upsert_session-HasKeys r = record {
  after = λ t k. with_sessions _ k (upsert-IsKeyed session_key r t.sessions k.sessions);
}

pub update_session_returning-HasKeys :
    (id : Str) (now : ℤ) → KeepsEffect HasKeys (update_session_returning id now)
unfolding update_session_returning
update_session_returning-HasKeys id now = record {
  after = λ t k.
      with_sessions _ k
        (update-IsKeyed session_key id (touch now) t.sessions (λ r. refl) k.sessions);
}

pub delete_session_row-HasKeys : (id : Str) → KeepsEffect HasKeys (delete_session_row id)
unfolding delete_session_row
delete_session_row-HasKeys id = record {
  after = λ t k. with_sessions _ k (erase-IsKeyed session_key id t.sessions k.sessions);
}

pub delete_idle_sessions-HasKeys : (cutoff : ℤ) → KeepsEffect HasKeys (delete_idle_sessions cutoff)
unfolding delete_idle_sessions
delete_idle_sessions-HasKeys cutoff = record {
  after = λ t k.
      with_sessions _ k
        (delete_where-IsKeyed session_key (idle_since cutoff) t.sessions k.sessions);
}

pub ruleset key_rules = (
  keeps_rules, insert_client-HasKeys, select_redirect_uris-HasKeys, insert_code-HasKeys,
  insert_token-HasKeys, delete_code_returning-HasKeys, delete_expired_tokens-HasKeys,
  delete_expired_codes-HasKeys, select_token-HasKeys, upsert_session-HasKeys,
  update_session_returning-HasKeys, delete_session_row-HasKeys, delete_idle_sessions-HasKeys,
)
