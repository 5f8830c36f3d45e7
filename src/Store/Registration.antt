-- ===== src/Store/Registration.antt =====
-- src/store.rs: `register_client` on the redirect URIs of every client.
use local_mcp.Common.{
  ◌≡◌, refl, sym, ap, ◌∙◌, true, false, Bool-cases, inl, inr, Option-cases, List, [], ◌∷◌, ◌++◌,
  any, arith, if◌then◌else◌,
}
use local_mcp.Common.Str.{Str, str_eq, str_eq_iff, str_eq_refl}
use local_mcp.Common.Eq.{str_Eq, pair_Eq, pair_eq_iff}
use local_mcp.Common.Result.{ok}
use local_mcp.Table
use local_mcp.Table.{IsKeyed}
use local_mcp.Store.Tables.{Tables, ClientRow, uris_of, client_key, insert_client}
use local_mcp.Store.Engine.{lock, execute, transaction}
use local_mcp.Store
use local_mcp.Store.{PendingCode, code_row, sweep_cutoff, map_option, is_some}
use local_mcp.Store.Calls.{register_client}
use local_mcp.Store.Spec.{view, done, put, add_uri, add_uris, spec, observe, sound, View-ext}

uris_of-append :
    (id : Str) (rows : List ClientRow) (r : ClientRow)
    → uris_of id (rows ++ r ∷ [])
      ≡ (if str_eq r.client_id id then uris_of id rows ++ r.redirect_uri ∷ [] else uris_of id rows)
uris_of-append id [] r = ground arith
uris_of-append id (s ∷ rows) r = ground (arith, uris_of-append id rows r)

-- A row is there exactly if its URI is among those of its client.
find-uris_of :
    (rows : List ClientRow) (id uri : Str)
    → is_some (Table.find client_key (id, uri) rows) ≡ any (λ u. str_eq u uri) (uris_of id rows)
unfolding Table.find
find-uris_of [] id uri = refl
find-uris_of (q ∷ rows) id uri = ground (
  arith,
  find-uris_of rows id uri,
  pair_eq_iff (client_key q) (id, uri),
  str_eq_iff q.client_id id,
  str_eq_iff q.redirect_uri uri,
)

-- A map that is put together from two functions, at the key from either.
put_from :
    {R : Type 0} (f g : Str → R) (id j : Str)
    → (if str_eq id j then f j else g j) ≡ put g id (f id) j
put_from f g id j = elim (Bool-cases (str_eq id j)) [
  | inl same ↦ rw same (ap f (sym ((str_eq_iff id j).0 same)))
  | inr other ↦ rw other refl
]

put_same : {R : Type 0} (f : Str → R) (id j : Str) → f j ≡ put f id (f id) j
put_same f id j = elim (Bool-cases (str_eq id j)) [
  | inl same ↦ rw same (ap f (sym ((str_eq_iff id j).0 same)))
  | inr other ↦ rw other refl
]

put-put : {R : Type 0} (f : Str → R) (id j : Str) (r s : R) → put (put f id r) id s j ≡ put f id s j
put-put f id j r s = elim (Bool-cases (str_eq id j)) [
  | inl same ↦ rw same refl
  | inr other ↦ rw other refl
]

insert_or_ignore-uris :
    (j : Str) (rows : List ClientRow) (r : ClientRow)
    → uris_of j (Table.insert_or_ignore client_key r rows)
      ≡ put
          (λ id. uris_of id rows)
          r.client_id
          (add_uri r.redirect_uri (uris_of r.client_id rows))
          j
unfolding Table.insert_or_ignore
insert_or_ignore-uris j rows r =
    let known = find-uris_of rows r.client_id r.redirect_uri in
    elim (Option-cases (Table.find client_key (client_key r) rows)) [
      | inl free ↦
          let new : any (λ u. str_eq u r.redirect_uri) (uris_of r.client_id rows) ≡ false =
            sym known ∙ ap is_some free in
          rw (free, Table.insert_or_ignore, new)
            (uris_of-append j rows r
              ∙ put_from (λ id. uris_of id rows ++ r.redirect_uri ∷ []) (λ id. uris_of id rows)
                  r.client_id j)
      | inr (s, there) ↦
          let old : any (λ u. str_eq u r.redirect_uri) (uris_of r.client_id rows) ≡ true =
            sym known ∙ ap is_some there in
          rw (there, Table.insert_or_ignore, old) (put_same (λ id. uris_of id rows) r.client_id j)
    ]

-- The rows that the loop of `register_client` leaves.
abbrev pub inserted : Str → List Str → List ClientRow → List ClientRow
inserted id [] rows = rows
inserted id (uri ∷ uris) rows =
    inserted id uris
      (Table.insert_or_ignore client_key (record { client_id = id; redirect_uri = uri }) rows)

pub insert_uris-inserted :
    (id : Str) (uris : List Str) (t : Tables)
    → Store.insert_uris id uris (sound t)
      ≡ (ok tt, sound (record t { clients = inserted id uris t.clients }))
unfolding Store.insert_uris execute insert_client
insert_uris-inserted id [] t = refl
insert_uris-inserted id (uri ∷ uris) t = insert_uris-inserted id uris (record t {
  clients =
      Table.insert_or_ignore client_key (record { client_id = id; redirect_uri = uri }) t.clients;
})

inserted-uris :
    (j id : Str) (uris : List Str) (rows : List ClientRow)
    → uris_of j (inserted id uris rows)
      ≡ put (λ k. uris_of k rows) id (add_uris uris (uris_of id rows)) j
inserted-uris j id [] rows = put_same (λ k. uris_of k rows) id j
inserted-uris j id (uri ∷ uris) rows =
    let more : List ClientRow =
      Table.insert_or_ignore client_key (record { client_id = id; redirect_uri = uri }) rows in
    let step =
      λ (k : Str). insert_or_ignore-uris k rows (record { client_id = id; redirect_uri = uri }) in
    let here : uris_of id more ≡ add_uri uri (uris_of id rows) =
      step id ∙ rw (str_eq_refl id) refl in
    inserted-uris j id uris more
    ∙ ap (λ (f : Str → List Str). put f id (add_uris uris (uris_of id more)) j) (λ i k. step k i)
    ∙ put-put (λ k. uris_of k rows) id j (add_uri uri (uris_of id rows))
        (add_uris uris (uris_of id more))
    ∙ ap (λ (l : List Str). put (λ k. uris_of k rows) id (add_uris uris l) j) here

pub register_client-refines :
    (id : Str) (uris : List Str) (t : Tables)
    → observe (register_client id uris) (sound t) ≡ spec (register_client id uris) (view t)
unfolding observe Store.register_client lock transaction
register_client-refines id uris t = rw (insert_uris-inserted id uris t) (λ i. (
  done,
  View-ext (view (record t { clients = inserted id uris t.clients }))
      (spec (register_client id uris) (view t)).1 (λ k. inserted-uris k id uris t.clients)
      (λ k. refl) (λ k. refl) (λ k. refl) i,
))
