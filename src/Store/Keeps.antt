-- ===== src/Store/Keeps.antt =====
-- Invariants of the tables through queries: one rule for each way to build a query.
use local_mcp.Common.{Bool-cases, inl, inr}
use local_mcp.Common.Result.{Result, ok, err}
use local_mcp.Store.Tables.{Tables, DbError, Effect}
use local_mcp.Store.Engine.{
  Db, Query, Act, lift, map_error, pure, ◌>>=◌, lock, execute, transaction, failing, advance,
  continue, commit_effect, finish_transaction,
}

-- The tables are left with `P`, whether the query returns or fails.
pub record Keeps {E A : Type 0} (P : Tables → Type 0) (m : Act E A) : Type 0 where
  pub at : (db : Db) → P db.tables → P (m db).1.tables

-- What an answer of a statement leaves.
abbrev pub Left : {A : Type 0} → (Tables → Type 0) → Result DbError (A × Tables) → Type 0
Left P (ok (a, t)) = P t
Left P (err e) = Unit {0}

-- What a statement leaves has `P`.
pub record KeepsEffect {A : Type 0} (P : Tables → Type 0) (f : Effect A) : Type 0 where
  pub after : (t : Tables) → P t → Left P (f t)

module _ {P : Tables → Type 0} where
  pub Keeps-pure : {E A : Type 0} (a : A) → Keeps P (pure {E = E} a)
  Keeps-pure a = record { at = λ db h. h }

  pub Keeps-lock : Keeps P lock
  unfolding lock
  Keeps-lock = record { at = λ db h. h }

module _ {A : Type 0} (P : Tables → Type 0) where
  commit-keeps :
      (r : Result DbError (A × Tables)) (db : Db)
      → P db.tables
      → Left P r
      → P (commit_effect r db).1.tables
  commit-keeps (ok (a, t)) db h l = l
  commit-keeps (err e) db h l = h

  finish-keeps :
      (before : Tables) (r : Result DbError A) (db : Db)
      → P before
      → P db.tables
      → P (finish_transaction before r db).1.tables
  finish-keeps before (err e) db hb h = hb
  finish-keeps before (ok a) db hb h = elim (Bool-cases (failing db.faults)) [
    | inl refuses ↦ rw refuses hb
    | inr commits ↦ rw commits h
  ]

module _ {A : Type 0} {P : Tables → Type 0} where
  execute-keeps :
      (f : Effect A) → KeepsEffect P f → (db : Db) → P db.tables → P (execute f db).1.tables
  unfolding execute
  execute-keeps f k db h = elim (Bool-cases (failing db.faults)) [
    | inl refuses ↦ rw refuses h
    | inr runs ↦ rw runs (commit-keeps P (f db.tables) _ h (k.after db.tables h))
  ]

  pub Keeps-execute : (f : Effect A) → KeepsEffect P f → Keeps P (execute f)
  Keeps-execute f k = record { at = execute-keeps f k }

  transaction-keeps :
      (m : Query A) → Keeps P m → (db : Db) → P db.tables → P (transaction m db).1.tables
  unfolding transaction
  transaction-keeps m k db h = elim (Bool-cases (failing db.faults)) [
    | inl refuses ↦ rw refuses h
    | inr begins ↦ rw begins (
        let started : Db = record db { faults = advance db.faults } in
        finish-keeps P db.tables (m started).0 (m started).1 h (k.at started h))
  ]

  pub Keeps-transaction : (m : Query A) → Keeps P m → Keeps P (transaction m)
  Keeps-transaction m k = record { at = transaction-keeps m k }

module _ {E A : Type 0} {P : Tables → Type 0} where
  pub Keeps-lift : (r : Result E A) → Keeps P (lift r)
  Keeps-lift r = record { at = λ db h. h }

module _ {E A B : Type 0} {P : Tables → Type 0} where
  continue-keeps :
      (r : Result E A) (f : A → Act E B) (db : Db)
      → ((a : A) → Keeps P (f a))
      → P db.tables
      → P (continue r f db).1.tables
  continue-keeps (ok a) f db kf h = (kf a).at db h
  continue-keeps (err e) f db kf h = h

  pub Keeps-bind :
      (m : Act E A) (f : A → Act E B) → Keeps P m → ((a : A) → Keeps P (f a)) → Keeps P (m >>= f)
  Keeps-bind m f km kf = record { at = λ db h. continue-keeps (m db).0 f (m db).1 kf (km.at db h) }

  pub Keeps-map_error : (f : E → B) (m : Act E A) → Keeps P m → Keeps P (map_error f m)
  Keeps-map_error f m k = record { at = k.at }

pub ruleset keeps_rules = (
  Keeps-pure, Keeps-lock, Keeps-execute, Keeps-transaction, Keeps-bind, Keeps-lift, Keeps-map_error,
)
