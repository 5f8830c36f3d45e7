-- ===== src/OAuth/Refusal.antt =====
-- src/oauth.rs: the refusals of the token endpoint, and the replay of a code.
use local_mcp.Common.{
  ◌≡◌, ◌≢◌, refl, sym, ◌∙◌, Bool-cases, ◌⊎◌, inl, inr, Option, none, some, subst,
}
use local_mcp.Common.Str.{Str, bytes, str_eq, str_eq_refl}
use local_mcp.Common.Result.{Result, ok, err, ok_or, map_err, Result-cases}
use local_mcp.Common.Eq.{str_Eq}
use local_mcp.Json.{Json}
use local_mcp.Http.{Response}
use local_mcp.Table
use local_mcp.Table.Laws.{find-erase}
use local_mcp.Store.Clock.{SystemTime}
use local_mcp.Store.Tables.{Tables, DbError, code_key}
use local_mcp.Store.Engine.{Db, Act, continue, lift}
use local_mcp.Store.Inversion.{
  IsClean, IsClean-bind, IsQuiet-lift, IsClean-then_pure, IsClean-map_error,
}
use local_mcp.Store.{PendingCode, take_code, store_token}
use local_mcp.Store.Codes.{take_code_ok, take_code_err}
use local_mcp.Store.Tokens.{store_token_err}
use local_mcp.OAuth.{Crypto, TokenRequest, token_answer, check_grant, exchange, token}
use local_mcp.OAuth.Exchange.{token_ok}

-- What a refused exchange may have changed: it may have used up the code, and nothing else.
abbrev pub Refused : Str → Tables → Tables → Type 0
Refused code before after =
    (after ≡ before) ⊎ (after ≡ record before { codes = Table.erase code_key code before.codes })

store_token-IsClean : (t : Str) (expires_at : SystemTime) → IsClean (store_token t expires_at)
store_token-IsClean t expires_at = record { at = store_token_err t expires_at }

-- From what `take_code` has answered.
taken_err :
    (code : Str) (f : Option PendingCode → Act Response Json) (g : DbError → Response)
    (r : Result DbError (Option PendingCode)) (db db₁ : Db) (e : Response)
    → ((o : Option PendingCode) → IsClean (f o))
    → Refused code db.tables db₁.tables
    → (continue (map_err g r) f db₁).0 ≡ err e
    → Refused code db.tables (continue (map_err g r) f db₁).1.tables
taken_err code f g (ok o) db db₁ e clean left h =
    subst (Refused code db.tables) (sym ((clean o).at db₁ e h)) left
taken_err code f g (err d) db db₁ e clean left h = left

take_code-Refused : (code : Str) (db : Db) → Refused code db.tables (take_code code db).1.tables
take_code-Refused code db = elim (Result-cases (take_code code db).0) [
  | inl (o, e) ↦ inr (take_code_ok code db o e).1
  | inr (d, e) ↦ inl (take_code_err code db d e)
]

exchange_err :
    (crypto : Crypto) (request : TokenRequest) (t : Str) (now later : SystemTime) (db : Db)
    (e : Response)
    → (exchange crypto request t now later db).0 ≡ err e
    → Refused request.code db.tables (exchange crypto request t now later db).1.tables
unfolding exchange
exchange_err crypto request t now later db e h =
    taken_err request.code _ _ (take_code request.code db).0 db (take_code request.code db).1 e
      (λ o. IsClean-bind (lift (ok_or _ o)) _ (IsQuiet-lift _) (λ pending.
        IsClean-bind (lift (check_grant crypto request pending now)) _ (IsQuiet-lift _) (λ _.
          IsClean-then_pure _ (token_answer t) (IsClean-map_error _ _ (store_token-IsClean t _)))))
      (take_code-Refused request.code db) h

-- A refused token request stores no token and changes nothing, but that the code it names may be
-- used up.
pub token_err :
    (crypto : Crypto) (request : TokenRequest) (access_token : Str) (now later : SystemTime)
    (db : Db) (e : Response)
    → (token crypto request access_token now later db).0 ≡ err e
    → Refused request.code db.tables (token crypto request access_token now later db).1.tables
unfolding token
token_err crypto request t now later db e h =
    elim (Bool-cases (str_eq request.grant_type (bytes "authorization_code"))) [
      | inl g ↦ rw g (exchange_err crypto request t now later db e (rw g at h))
      | inr g ↦ rw g (inl refl)
    ]

-- A code is exchanged once: after a request that was answered with a token, every request that
-- names the same code is refused, whatever else it says.
pub token_replay :
    (crypto : Crypto) (first second : TokenRequest) (t u : Str) (now later now' later' : SystemTime)
    (db : Db) (answer : Json)
    → second.code ≡ first.code
    → (token crypto first t now later db).0 ≡ ok answer
    → (again : Json)
    → (token crypto second u now' later' (token crypto first t now later db).1).0 ≢ ok again
token_replay crypto first second t u now later now' later' db answer same done again redone =
    let (_, _, x) = token_ok crypto first t now later db answer done in
    let (_, _, y) =
      token_ok crypto second u now' later' (token crypto first t now later db).1 again redone in
    let gone : Table.find code_key first.code (token crypto first t now later db).1.codes ≡ none =
      rw (x.left, find-erase code_key first.code first.code db.codes, str_eq_refl first.code)
        refl in
    let there : Table.find code_key first.code (token crypto first t now later db).1.codes
        ≡ some y.row =
      rw same at y.pending in
    let clash : none ≡ some y.row = sym gone ∙ there in cc
