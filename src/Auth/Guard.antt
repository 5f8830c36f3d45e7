-- ===== src/Auth/Guard.antt =====
-- src/auth.rs: who passes the guard, and who does not.
use local_mcp.Common.{
  ◌≡◌, refl, sym, ap, ◌∙◌, ◌⊎◌, inl, inr, Bool, true, false, Bool-cases, Option, none, some, ◌++◌,
  arith, if◌then◌else◌, Option-cases,
}
use local_mcp.Common.Str.{Str, bytes, strip_prefix-append, strip_prefix-eq-some, trim}
use local_mcp.Common.Result.{Result, ok, err, ok_or, ok_or-eq-ok, err-ne-ok}
use local_mcp.Http.{Response}
use local_mcp.Store.Clock.{SystemTime}
use local_mcp.Store.Tables.{DbError}
use local_mcp.Store.Engine.{Db, Act, lift}
use local_mcp.Store.Inversion.{bind_ok}
use local_mcp.Store
use local_mcp.OAuth.{Crypto, OAuth}
use local_mcp.OAuth.Consent.{IsConstantTimeEq, constant_time_iff}
use local_mcp.Auth.{
  AuthState, Header, token_matches, refusal, or_false, oauth_accepts, accepted, strip_bearer, guard,
}

-- Why a request was let through: its bearer token, without the white space around it, is the
-- configured one, or OAuth is offered and the database said that it is valid.
pub record Admitted (state : AuthState) (authorization : Header) (now : SystemTime) (db : Db)
    : Type 0 where
  pub raw : Str
  pub bearer : authorization ≡ some (bytes "Bearer " ++ raw)
  pub known :
      (trim raw ≡ state.token)
      ⊎ ((oauth : OAuth) × (state.oauth ≡ some oauth)
          × ((Store.token_is_valid now (trim raw) db).0 ≡ ok true))

strip_bearer-some :
    (authorization : Header) (raw : Str)
    → strip_bearer authorization ≡ some raw
    → authorization ≡ some (bytes "Bearer " ++ raw)
strip_bearer-some none raw h = cc
strip_bearer-some (some value) raw h = ap some (strip_prefix-eq-some (bytes "Bearer ") value raw h)

or_false-true : (r : Result DbError Bool) → or_false r ≡ true → r ≡ ok true
or_false-true (ok b) h = ap ok h
or_false-true (err e) h = cc

oauth_accepts-known :
    (o : Option OAuth) (now : SystemTime) (presented : Str) (db : Db)
    → (oauth_accepts o now presented db).0 ≡ ok true
    → (oauth : OAuth) × (o ≡ some oauth) × ((Store.token_is_valid now presented db).0 ≡ ok true)
unfolding oauth_accepts
oauth_accepts-known none now presented db h = absurd (ground (arith, h))
oauth_accepts-known (some oauth) now presented db h =
    (oauth, refl, or_false-true (Store.token_is_valid now presented db).0 (ground (arith, h)))

-- The test that a bearer token goes through, by cases.
accepted_known :
    (crypto : Crypto) (state : AuthState) (now : SystemTime) (presented : Str) (db : Db)
    → IsConstantTimeEq crypto
    → (accepted crypto state now presented db).0 ≡ ok true
    → (presented ≡ state.token)
      ⊎ ((oauth : OAuth) × (state.oauth ≡ some oauth)
          × ((Store.token_is_valid now presented db).0 ≡ ok true))
unfolding accepted
accepted_known crypto state now presented db law h =
    elim (Bool-cases (token_matches crypto state.token presented)) [
      | inl same ↦ inl (
          sym
            ((constant_time_iff crypto state.token presented law).0 (unfold token_matches in same)))
      | inr differs ↦ inr (oauth_accepts-known state.oauth now presented db (rw differs at h))
    ]

passes :
    {A : Type 0} (b : Bool) (next : Act Response A) (e : Response) (db : Db) (a : A)
    → ((if b then next else lift (err e)) db).0 ≡ ok a
    → b ≡ true
passes true next e db a h = refl
passes false next e db a h = err-ne-ok _ _ h

module _ {A : Type 0} (crypto : Crypto) (parses : Str → Bool) (state : AuthState)
    (authorization : Header) (now : SystemTime) (next : Act Response A) (db : Db)
    (law : IsConstantTimeEq crypto) where
  -- With a comparison that answers equality, a request that gets an answer from behind the guard
  -- carried a bearer token that is, without the white space around it, the configured one, or one that
  -- the store called valid while OAuth is offered.
  pub guard_ok :
      (a : A)
      → (guard crypto parses state authorization now next db).0 ≡ ok a
      → Admitted state authorization now db
  unfolding guard
  guard_ok a h =
      let p₁ = bind_ok _ (lift (ok_or _ (strip_bearer authorization))) db a h in
      let p₂ = bind_ok _ (accepted crypto state now (trim p₁.value)) db a p₁.rest in
      record {
        raw = p₁.value;
        bearer = strip_bearer-some authorization p₁.value (ok_or-eq-ok _ _ p₁.first);
        known =
            accepted_known crypto state now (trim p₁.value) db law
              (p₂.first ∙ ap ok (passes p₂.value next (refusal parses state.oauth) _ a p₂.rest));
      }

oauth_accepts_total :
    (o : Option OAuth) (now : SystemTime) (presented : Str) (db : Db)
    → (b : Bool) × ((oauth_accepts o now presented db).0 ≡ ok b)
unfolding oauth_accepts
oauth_accepts_total none now presented db = (false, refl)
oauth_accepts_total (some oauth) now presented db =
    (or_false (Store.token_is_valid now presented db).0, refl)

-- The test always answers: an error of the database is a refusal.
accepted_total :
    (crypto : Crypto) (state : AuthState) (now : SystemTime) (presented : Str) (db : Db)
    → (b : Bool) × ((accepted crypto state now presented db).0 ≡ ok b)
unfolding accepted
accepted_total crypto state now presented db =
    elim (Bool-cases (token_matches crypto state.token presented)) [
      | inl same ↦ (true, rw same refl)
      | inr differs ↦
          let (b, answered) = oauth_accepts_total state.oauth now presented db in
          (b, rw differs answered)
    ]

oauth_accepts_valid :
    (o : Option OAuth) (oauth : OAuth) (now : SystemTime) (presented : Str) (db : Db)
    → o ≡ some oauth
    → (Store.token_is_valid now presented db).0 ≡ ok true
    → (oauth_accepts o now presented db).0 ≡ ok true
unfolding oauth_accepts
oauth_accepts_valid none oauth now presented db e valid = cc
oauth_accepts_valid (some o) oauth now presented db e valid = rw valid refl

known_accepted :
    (crypto : Crypto) (state : AuthState) (now : SystemTime) (presented : Str) (db : Db)
    → IsConstantTimeEq crypto
    → (presented ≡ state.token)
      ⊎ ((oauth : OAuth) × (state.oauth ≡ some oauth)
          × ((Store.token_is_valid now presented db).0 ≡ ok true))
    → (accepted crypto state now presented db).0 ≡ ok true
unfolding accepted
known_accepted crypto state now presented db law (inl same) =
    let matches : token_matches crypto state.token presented ≡ true =
      (unfold token_matches in (constant_time_iff crypto state.token presented law).1 (sym same)) in
    rw matches refl
known_accepted crypto state now presented db law (inr (oauth, on, valid)) =
    elim (Bool-cases (token_matches crypto state.token presented)) [
      | inl same ↦ rw same refl
      | inr differs ↦ rw differs (oauth_accepts_valid state.oauth oauth now presented db on valid)
    ]

module _ {A : Type 0} (crypto : Crypto) (parses : Str → Bool) (state : AuthState)
    (authorization : Header) (now : SystemTime) (next : Act Response A) (db : Db)
    (law : IsConstantTimeEq crypto) where
  -- With a comparison that answers equality, a request with the configured token, or with one that
  -- the store calls valid while OAuth is offered, gets the answer of the rest of the stack, which runs
  -- on the database that the test of its token leaves.
  pub guard_admits :
      (admitted : Admitted state authorization now db)
      → guard crypto parses state authorization now next db
        ≡ next (accepted crypto state now (trim admitted.raw) db).1
  unfolding guard
  guard_admits admitted =
      rw
        (
          admitted.bearer,
          strip_prefix-append (bytes "Bearer ") admitted.raw,
          known_accepted crypto state now (trim admitted.raw) db law admitted.known,
        )
        refl

module _ (crypto : Crypto) (parses : Str → Bool) (state : AuthState) (authorization : Header)
    (now : SystemTime) (db : Db) (law : IsConstantTimeEq crypto)
    (outside : ¬ Admitted state authorization now db) where
  refuses_token :
      (raw : Str)
      → strip_bearer authorization ≡ some raw
      → (accepted crypto state now (trim raw) db).0 ≡ ok false
  refuses_token raw e =
      let (b, answered) = accepted_total crypto state now (trim raw) db in
      elim (Bool-cases b) [
        | inl accepts ↦ absurd (
            outside (record {
              raw = raw;
              bearer = strip_bearer-some authorization raw e;
              known = accepted_known crypto state now (trim raw) db law (answered ∙ ap ok accepts);
            }))
        | inr refuses ↦ answered ∙ ap ok refuses
      ]

  -- With a comparison that answers equality, what stands behind the guard does not run for any other
  -- request: whatever it is, the answer is the refusal, and one and the same database is left.
  pub guard_refuses :
      (db' : Db) × ((next : Act Response Response)
        → guard crypto parses state authorization now next db
          ≡ (err (refusal parses state.oauth), db'))
  unfolding guard
  guard_refuses = elim (Option-cases (strip_bearer authorization)) [
    | inl e ↦ (db, λ next. rw e refl)
    | inr (raw, e) ↦
        ((accepted crypto state now (trim raw) db).1, λ next. rw (e, refuses_token raw e) refl)
  ]
