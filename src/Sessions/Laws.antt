-- ===== src/Sessions/Laws.antt =====
-- src/sessions.rs: `load` after `store` and after `delete`.
use local_mcp.Common.{◌≡◌, refl, ap, ◌∙◌, Option, none, some, arith}
use local_mcp.Common.Str.{Str, str_eq_refl}
use local_mcp.Common.Result.{ok, ok_or, map_err-eq-ok, ok_or-eq-ok}
use local_mcp.Store.Clock.{SystemTime}
use local_mcp.Store.Engine.{Db, lift, map_error}
use local_mcp.Store.Inversion.{bind_ok}
use local_mcp.Store
use local_mcp.Store.Sessions.{load_session-save_session, load_session-delete_session}
use local_mcp.Sessions.{Serde, database, json, decode_found, load, store, delete}

-- What is printed is read back.
pub record IsRoundTrip {P : Type 0} (serde : Serde P) : Type 0 where
  pub from_str-to_string :
      (p : P) (s : Str) → serde.to_string p ≡ some s → serde.from_str s ≡ some p

module _ {P : Type 0} (serde : Serde P) (law : IsRoundTrip serde) where
  -- What `load` makes of the text of a handshake, and of none.
  decodes_printed :
      (p : P) (s : Str) (found : Option Str) (db : Db) (o : Option P)
      → serde.to_string p ≡ some s
      → found ≡ some s
      → (decode_found serde found db).0 ≡ ok o
      → o ≡ some p
  decodes_printed p s none db o printed e h = cc
  decodes_printed p s (some t) db o printed e h =
      let step = bind_ok _ (lift (ok_or json (serde.from_str t))) db o h in
      let read : serde.from_str t ≡ some step.value = ok_or-eq-ok _ _ step.first in
      let back : serde.from_str s ≡ some p = law.from_str-to_string p s printed in
      let returned : some step.value ≡ o = ground (arith, step.rest) in cc

  -- Where what is printed is read back, a handshake that was stored is the one that the next load of
  -- its session finds.
  pub load-store :
      (now later : SystemTime) (id : Str) (p : P) (db : Db) (o : Option P)
      → (store serde now id p db).0 ≡ ok tt
      → (load serde later id (store serde now id p db).1).0 ≡ ok o
      → o ≡ some p
  unfolding store load
  load-store now later id p db o stored loaded =
      let step = bind_ok _ (lift (ok_or json (serde.to_string p))) db tt stored in
      let after : Db = (store serde now id p db).1 in
      let saved : (Store.save_session now id step.value db).0 ≡ ok tt =
        map_err-eq-ok _ _ step.rest in
      let left : after ≡ (Store.save_session now id step.value db).1 = ap (λ x. x.1) step.same in
      let read = bind_ok _ (map_error database (Store.load_session later id)) after o loaded in
      let found : (Store.load_session later id after).0 ≡ ok read.value =
        map_err-eq-ok _ _ read.first in
      let answered : (Store.load_session later id (Store.save_session now id step.value db).1).0
          ≡ ok read.value =
        rw left at found in
      decodes_printed p step.value read.value (Store.load_session later id after).1 o
        (ok_or-eq-ok _ _ step.first)
        (load_session-save_session now later id id step.value db read.value saved answered
          ∙ rw (str_eq_refl id) refl)
        read.rest

module _ {P : Type 0} (serde : Serde P) where
  -- A handshake that was deleted is not found by the next load.
  pub load-delete :
      (later : SystemTime) (id : Str) (db : Db) (o : Option P)
      → (delete id db).0 ≡ ok tt
      → (load serde later id (delete id db).1).0 ≡ ok o
      → o ≡ none
  unfolding delete load
  load-delete later id db o deleted loaded =
      let after : Db = (Store.delete_session id db).1 in
      let read = bind_ok _ (map_error database (Store.load_session later id)) after o loaded in
      let gone : read.value ≡ none =
        load_session-delete_session later id id db read.value (map_err-eq-ok _ _ deleted)
          (map_err-eq-ok _ _ read.first)
        ∙ rw (str_eq_refl id) refl in
      let returned : (decode_found serde none (Store.load_session later id after).1).0 ≡ ok o =
        rw gone at read.rest in
      ground (arith, returned)
