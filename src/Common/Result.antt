-- ===== src/Common/Result.antt =====
-- Rust's `Result`, with `?` as the bind of a `do` block.
use mathlib.Core.Path.{◌≡◌, refl}
use mathlib.Core.Option.{Option, none, some}
use mathlib.Core.Bool.{Bool, true, false}
use mathlib.Core.Logic.{◌⊎◌, inl, inr}
use native.Mathlib.Omega.{arith}
use local_mcp.Common.Tests.{if◌then◌else◌}

pub data Result {ℓ κ} (E : Type ℓ) (A : Type κ) : Type (ℓ ⊔ κ) where
  ok : A → Result E A
  err : E → Result E A

infixl 10 ◌>>=◌ ◌>>◌
abbrev pub ◌>>=◌ {ℓ κ μ} :
    {E : Type ℓ} {A : Type κ} {B : Type μ} → Result E A → (A → Result E B) → Result E B
ok a >>= f = f a
err e >>= f = err e

abbrev pub ◌>>◌ {ℓ κ μ} :
    {E : Type ℓ} {A : Type κ} {B : Type μ} → Result E A → Result E B → Result E B
m >> n = m >>= λ _. n

-- `map_err`
abbrev pub map_err {ℓ κ μ} :
    {E : Type ℓ} {F : Type κ} {A : Type μ} → (E → F) → Result E A → Result F A
map_err f (ok a) = ok a
map_err f (err e) = err (f e)

-- `ok_or_else`
abbrev pub ok_or {ℓ κ} : {E : Type ℓ} {A : Type κ} → E → Option A → Result E A
ok_or e none = err e
ok_or e (some a) = ok a

pub Result-cases {ℓ κ} :
    {E : Type ℓ} {A : Type κ} (r : Result E A) → ((a : A) × (r ≡ ok a)) ⊎ ((e : E) × (r ≡ err e))
Result-cases (ok a) = inl (a, refl)
Result-cases (err e) = inr (e, refl)

-- Inversion of the steps that succeed, for code whose parts stay shut.
module _ {ℓ κ} {E : Type ℓ} {A : Type κ} where
  pub bind-eq-ok {μ} :
      {B : Type μ} (m : Result E A) (f : A → Result E B) {b : B}
      → (m >>= f) ≡ ok b
      → (a : A) × (m ≡ ok a) × (f a ≡ ok b)
  bind-eq-ok (ok a) f h = (a, refl, h)
  bind-eq-ok (err e) f h = cc

  pub map_err-eq-ok {μ} :
      {F : Type μ} (f : E → F) (r : Result E A) {a : A} → map_err f r ≡ ok a → r ≡ ok a
  map_err-eq-ok f (ok a) h = ground arith
  map_err-eq-ok f (err e) h = cc

  pub ok_or-eq-ok : (e : E) (o : Option A) {a : A} → ok_or e o ≡ ok a → o ≡ some a
  ok_or-eq-ok e none h = cc
  ok_or-eq-ok e (some a) h = ground arith

  abbrev wrapped : A → Result E A
  wrapped a = ok a

  pub ok-inj : {a b : A} → wrapped a ≡ ok b → a ≡ b
  ok-inj h = ground arith

  pub if-eq-ok :
      (b : Bool) (x y : A) (e : E) → (if b then ok x else err e) ≡ ok y → (b ≡ true) × (y ≡ x)
  if-eq-ok true x y e h = (refl, ground arith)
  if-eq-ok false x y e h = cc

  pub err-ne-ok : {P : Type 0} (e : E) (a : A) → err e ≡ ok a → P
  err-ne-ok e a h = cc

  pub map_err-eq-err {μ} :
      {F : Type μ} (f : E → F) (r : Result E A) {e : F}
      → map_err f r ≡ err e
      → (d : E) × (r ≡ err d)
  map_err-eq-err f (ok a) h = cc
  map_err-eq-err f (err d) h = (d, refl)

abbrev pub is_some {ℓ} : {A : Type ℓ} → Option A → Bool
is_some none = false
is_some (some a) = true
