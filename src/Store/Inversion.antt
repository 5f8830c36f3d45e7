-- ===== src/Store/Inversion.antt =====
-- What a sequence of actions that returns has gone through, and where one that fails has stopped.
use local_mcp.Common.{◌≡◌, refl, ap, ◌∙◌, arith}
use local_mcp.Common.Result.{Result, ok, err, map_err-eq-err}
use local_mcp.Store.Engine.{Db, Act, continue, pure, lift, map_error, ◌>>=◌}

module _ {E A B : Type 0} (f : A → Act E B) where
  -- The first action returned `a`, and the rest returned from there.
  pub record Passed (r : Result E A) (db : Db) (b : B) : Type 0 where
    pub value : A
    pub first : r ≡ ok value
    pub rest : (f value db).0 ≡ ok b
    pub same : continue r f db ≡ f value db

  continue_ok : (r : Result E A) (db : Db) (b : B) → (continue r f db).0 ≡ ok b → Passed r db b
  continue_ok (ok a) db b h = record { value = a; first = refl; rest = h; same = refl }
  continue_ok (err e) db b h = cc

  pub bind_ok :
      (m : Act E A) (db : Db) (b : B) → ((m >>= f) db).0 ≡ ok b → Passed (m db).0 (m db).1 b
  bind_ok m db b h = continue_ok (m db).0 (m db).1 b h

-- Where the action fails, the tables are as they were before it.
pub record IsClean {E A : Type 0} (m : Act E A) : Type 0 where
  pub at : (db : Db) (e : E) → (m db).0 ≡ err e → (m db).1.tables ≡ db.tables

-- The action leaves the tables alone.
pub record IsQuiet {E A : Type 0} (m : Act E A) : Type 0 where
  pub at : (db : Db) → (m db).1.tables ≡ db.tables

module _ {E A B : Type 0} where
  quiet_continue :
      (r : Result E A) (f : A → Act E B) (db : Db) (e : E)
      → ((a : A) → IsClean (f a))
      → (continue r f db).0 ≡ err e
      → (continue r f db).1.tables ≡ db.tables
  quiet_continue (ok a) f db e k h = (k a).at db e h
  quiet_continue (err d) f db e k h = refl

  pub IsClean-bind :
      (m : Act E A) (f : A → Act E B) → IsQuiet m → ((a : A) → IsClean (f a)) → IsClean (m >>= f)
  IsClean-bind m f q k = record {
    at = λ db e h. quiet_continue (m db).0 f (m db).1 e k h ∙ q.at db;
  }

  pure-continue :
      (r : Result E A) (b : B) (db : Db) (e : E)
      → (continue r (λ _. pure b) db).0 ≡ err e
      → (r ≡ err e) × ((continue r (λ _. pure b) db).1 ≡ db)
  pure-continue (ok a) b db e h = cc
  pure-continue (err d) b db e h = (ground (arith, h), refl)

  pub IsClean-then_pure : (m : Act E A) (b : B) → IsClean m → IsClean (m >>= λ _. pure b)
  IsClean-then_pure m b c = record {
    at = λ db e h.
        let (failed, same) = pure-continue (m db).0 b (m db).1 e h in
        ap (λ (d : Db). d.tables) same ∙ c.at db e failed;
  }

module _ {E A : Type 0} where
  pub IsQuiet-lift : (r : Result E A) → IsQuiet (lift r)
  IsQuiet-lift r = record { at = λ db. refl }

  pub IsClean-of_quiet : (m : Act E A) → IsQuiet m → IsClean m
  IsClean-of_quiet m q = record { at = λ db e h. q.at db }

  pub IsQuiet-map_error :
      {F : Type 0} (f : E → F) (m : Act E A) → IsQuiet m → IsQuiet (map_error f m)
  IsQuiet-map_error f m q = record { at = q.at }

  pub IsClean-map_error :
      {F : Type 0} (f : E → F) (m : Act E A) → IsClean m → IsClean (map_error f m)
  IsClean-map_error f m c = record {
    at = λ db e h. let (d, failed) = map_err-eq-err f (m db).0 h in c.at db d failed;
  }

module _ {E A B : Type 0} where
  pub IsQuiet-bind :
      (m : Act E A) (f : A → Act E B) → IsQuiet m → ((a : A) → IsQuiet (f a)) → IsQuiet (m >>= f)
  IsQuiet-bind m f q k = record { at = λ db. go (m db).0 (m db).1 ∙ q.at db }
    where
      go : (r : Result E A) (db : Db) → (continue r f db).1.tables ≡ db.tables
      go (ok a) db = (k a).at db
      go (err e) db = refl

  -- An action followed by a plain answer.
  continue-pure_state : (r : Result E A) (b : B) (db : Db) → (continue r (λ _. pure b) db).1 ≡ db
  continue-pure_state (ok a) b db = refl
  continue-pure_state (err e) b db = refl

  pub then_pure_state : (m : Act E A) (b : B) (db : Db) → ((m >>= λ _. pure b) db).1 ≡ (m db).1
  then_pure_state m b db = continue-pure_state (m db).0 b (m db).1

  pub then_pure_ok :
      (m : Act E A) (b : B) (db : Db) (a : A) → (m db).0 ≡ ok a → ((m >>= λ _. pure b) db).0 ≡ ok b
  then_pure_ok m b db a h = rw h

  pub then_pure_err :
      (m : Act E A) (b : B) (db : Db) (e : E)
      → (m db).0 ≡ err e
      → ((m >>= λ _. pure b) db).0 ≡ err e
  then_pure_err m b db e h = rw h
