-- ===== src/Store/Clients.antt =====
-- The registered clients of src/store.rs: `register_client` and `redirect_uris`.
use local_mcp.Common.{
  ◌≡◌, ◌∙◌, Option-cases, Bool-cases, inl, inr, Bool, true, ◌&&◌, ◌||◌, any, Option, some, List, [],
  ◌∷◌, ◌++◌, arith,
}
use local_mcp.Common.Str.{Str, str_eq, str_eq_iff}
use local_mcp.Common.Eq.{pair_Eq, pair_eq_iff}
use local_mcp.Common.Result.{ok, err}
use local_mcp.Table
use local_mcp.Store.Tables.{
  DbError, refused, ClientRow, client_key, uris_of, insert_client, select_redirect_uris,
}
use local_mcp.Store.Engine.{Db, lock, execute, transaction, failing, advance}
use local_mcp.Store.{some_unless_empty, insert_uris, register_client, redirect_uris}

-- Whether the client has the redirect URI.
abbrev pub registered : Str → Str → List ClientRow → Bool
registered id uri rows = any (λ u. str_eq u uri) (uris_of id rows)

-- A failed registration leaves the tables as they were, also where some of its rows had been
-- written when it failed.
pub register_client_err :
    (id : Str) (uris : List Str) (db : Db) (e : DbError)
    → (register_client id uris db).0 ≡ err e
    → (register_client id uris db).1.tables ≡ db.tables
unfolding register_client lock transaction
register_client_err id uris db e h = ground arith

registered-append :
    (id uri : Str) (rows : List ClientRow) (r : ClientRow)
    → registered id uri (rows ++ r ∷ [])
      ≡ (registered id uri rows || str_eq r.client_id id && str_eq r.redirect_uri uri)
registered-append id uri [] r = ground arith
registered-append id uri (s ∷ rows) r = ground (arith, registered-append id uri rows r)

registered-find :
    (rows : List ClientRow) (r s : ClientRow)
    → Table.find client_key (client_key r) rows ≡ some s
    → registered r.client_id r.redirect_uri rows ≡ true
unfolding Table.find
registered-find [] r s h = cc
registered-find (q ∷ rows) r s h = ground (
  arith,
  registered-find rows r s,
  pair_eq_iff (client_key q) (client_key r),
  str_eq_iff q.client_id r.client_id,
  str_eq_iff q.redirect_uri r.redirect_uri,
)

registered-insert :
    (id uri : Str) (rows : List ClientRow) (r : ClientRow)
    → registered id uri (Table.insert_or_ignore client_key r rows)
      ≡ (registered id uri rows || str_eq r.client_id id && str_eq r.redirect_uri uri)
unfolding Table.insert_or_ignore
registered-insert id uri rows r = elim (Option-cases (Table.find client_key (client_key r) rows)) [
  | inl free ↦ rw (free, Table.insert_or_ignore) (registered-append id uri rows r)
  | inr (s, taken) ↦
      rw (taken, Table.insert_or_ignore)
        (ground (
          arith,
          registered-find rows r s taken,
          str_eq_iff r.client_id id,
          str_eq_iff r.redirect_uri uri,
        ))
]

or_regroup : (a b c d : Bool) → ((a || b && c) || b && d) ≡ (a || b && (c || d))
or_regroup a b c d = ground arith

registered-insert_uris :
    (id j uri : Str) (uris : List Str) (db : Db)
    → (insert_uris id uris db).0 ≡ ok tt
    → registered j uri (insert_uris id uris db).1.clients
      ≡ (registered j uri db.clients || str_eq id j && any (λ u. str_eq u uri) uris)
unfolding insert_uris execute insert_client
registered-insert_uris id j uri [] db h = ground arith
registered-insert_uris id j uri (u ∷ uris) db h = elim (Bool-cases (failing db.faults)) [
  | inl refuses ↦ let h' : err refused ≡ ok tt = rw refuses at h in cc
  | inr runs ↦
      let r : ClientRow = record { client_id = id; redirect_uri = u } in
      let next : Db = record {
        tables = record db.tables { clients = Table.insert_or_ignore client_key r db.clients };
        faults = advance db.faults;
      } in
      rw runs (
        registered-insert_uris id j uri uris next (rw runs at h)
        ∙ rw (registered-insert j uri db.clients r)
            (or_regroup (registered j uri db.clients) (str_eq id j) (str_eq u uri) _))
]

register_client_inserts :
    (id : Str) (uris : List Str) (db : Db)
    → (register_client id uris db).0 ≡ ok tt
    → let begun : Db = record db { faults = advance (advance db.faults) } in
      ((insert_uris id uris begun).0 ≡ ok tt)
      × ((register_client id uris db).1.tables ≡ (insert_uris id uris begun).1.tables)
unfolding register_client lock transaction
register_client_inserts id uris db h = ground arith

-- After a successful registration a client has a redirect URI exactly if it had it before, or it is
-- the client that was registered and the URI is one of those given.
pub register_client_ok :
    (id j uri : Str) (uris : List Str) (db : Db)
    → (register_client id uris db).0 ≡ ok tt
    → registered j uri (register_client id uris db).1.clients
      ≡ (registered j uri db.clients || str_eq id j && any (λ u. str_eq u uri) uris)
register_client_ok id j uri uris db h =
    let (inserted, left) = register_client_inserts id uris db h in
    rw left (
      registered-insert_uris id j uri uris (record db { faults = advance (advance db.faults) })
        inserted)

-- What `redirect_uris` answers: the registered URIs, or `None` for a client with none.
pub redirect_uris_ok :
    (id : Str) (db : Db) (o : Option (List Str))
    → (redirect_uris id db).0 ≡ ok o
    → (o ≡ some_unless_empty (uris_of id db.clients)) × ((redirect_uris id db).1.tables ≡ db.tables)
unfolding redirect_uris lock execute select_redirect_uris
redirect_uris_ok id db o h = ground arith

pub redirect_uris_err :
    (id : Str) (db : Db) (e : DbError)
    → (redirect_uris id db).0 ≡ err e
    → (redirect_uris id db).1.tables ≡ db.tables
unfolding redirect_uris lock execute select_redirect_uris
redirect_uris_err id db e h = ground arith
