-- ===== src/Store/Engine.antt =====
-- Methods that run statements on the database and may fail. Which locks and statements fail is for
-- the environment to choose: `faults` is its script, one entry for each attempt, none when it is
-- used up. What was written before a failure stays written, so the state comes back beside it.
use local_mcp.Common.{Bool, false, List, [], ◌∷◌, if◌then◌else◌}
use local_mcp.Common.Result.{Result, ok, err, map_err}
use local_mcp.Store.Tables.{Tables, DbError, poisoned, refused, Effect}

pub record Db : Type 0 where
  pub tables : Tables
  pub open tables use *
  pub faults : List Bool

-- An action on the database that returns an `A` or fails with an `E`.
abbrev pub Act : Type 0 → Type 0 → Type 0
Act E A = Db → Result E A × Db

abbrev pub Query : Type 0 → Type 0
Query A = Act DbError A

abbrev pub failing : List Bool → Bool
failing [] = false
failing (b ∷ script) = b

abbrev pub advance : List Bool → List Bool
advance [] = []
advance (b ∷ script) = script

abbrev pub pure : {E A : Type 0} → A → Act E A
pure a db = (ok a, db)

abbrev pub continue : {E A B : Type 0} → Result E A → (A → Act E B) → Act E B
continue (ok a) f db = f a db
continue (err e) f db = (err e, db)

infixl 10 ◌>>=◌ ◌>>◌
abbrev pub ◌>>=◌ : {E A B : Type 0} → Act E A → (A → Act E B) → Act E B
◌>>=◌ m f db = let (r, db') = m db in continue r f db'

abbrev pub ◌>>◌ : {E A B : Type 0} → Act E A → Act E B → Act E B
m >> n = m >>= λ _. n

-- A `Result` at hand, under `?`.
abbrev pub lift : {E A : Type 0} → Result E A → Act E A
lift r db = (r, db)

-- `m.map_err(f)`
abbrev pub map_error : {E F A : Type 0} → (E → F) → Act E A → Act F A
map_error f m db = let (r, db') = m db in (map_err f r, db')

-- `Store::lock`
unfoldable pub lock : Query Unit
lock db =
    (if failing db.faults then err poisoned else ok tt, record db { faults = advance db.faults })

abbrev pub commit_effect : {A : Type 0} → Result DbError (A × Tables) → Query A
commit_effect (ok (a, t)) db = (ok a, record db { tables = t })
commit_effect (err e) db = (err e, db)

-- One statement: it is refused, or it does what its SQL says.
unfoldable pub execute : {A : Type 0} → Effect A → Query A
execute f db =
    if failing db.faults
    then (err refused, record db { faults = advance db.faults })
    else commit_effect (f db.tables) (record db { faults = advance db.faults })

abbrev pub finish_transaction : {A : Type 0} → Tables → Result DbError A → Query A
finish_transaction before (ok a) db =
    if failing db.faults
    then (err refused, record { tables = before; faults = advance db.faults })
    else (ok a, record db { faults = advance db.faults })
finish_transaction before (err e) db = (err e, record db { tables = before })

-- `connection.transaction()`, the body and `commit()`: where the body or the commit fails, the
-- transaction is dropped and with it all that the body wrote.
unfoldable pub transaction : {A : Type 0} → Query A → Query A
transaction body db =
    if failing db.faults
    then (err refused, record db { faults = advance db.faults })
    else (let (r, db') = body (record db { faults = advance db.faults }) in
        finish_transaction db.tables r db')
