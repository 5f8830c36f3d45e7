-- ===== src/Service/Threads/Admission.antt =====
-- src/main.rs: who passes the guard, when requests are served at the same time.
use local_mcp.Common.{◌≡◌, ◌≢◌, sym, ap, ◌∙◌, ◌⊎◌, Bool, some, List, [], ◌++◌}
use local_mcp.Common.Str.{Str, bytes, trim}
use local_mcp.Common.Trim.{trim-trim}
use local_mcp.Common.Eq.{str_Eq}
use local_mcp.Common.Result.{ok}
use local_mcp.Http.{Response}
use local_mcp.Store.Clock.{SystemTime}
use local_mcp.Store.Engine.{Act}
use local_mcp.OAuth.{Crypto, ConsentForm}
use local_mcp.OAuth.Consent.{IsConstantTimeEq}
use local_mcp.Auth.{Header, guard}
use local_mcp.Service.{Settings, auth_state, post_authorize}
use local_mcp.Service.Origin.{IsAmong}
use local_mcp.Service.Consent.{Entitled, IsAmong-All, guard-Explained, unconsented}
use local_mcp.Service.Threads.{Running, Event, interleave, arrivals}
use local_mcp.Service.Threads.Origin.{interleave-Explained}

module _ (crypto : Crypto) (parses : Str → Bool) (config : Settings) (law : IsConstantTimeEq crypto)
    (events : List Event) (start : Running) (idle : start.threads ≡ [])
    (no_codes : start.db.codes ≡ []) (no_tokens : start.db.tokens ≡ []) where
  -- With a comparison that answers equality, however the requests interleave, also within one request,
  -- and wherever the process is restarted: when no request is under way and no code and no token is stored at the start, a request that gets
  -- an answer from behind the guard carried the configured token, or a token that has not expired and
  -- that was issued for a code which agreed with the token request (redirect URI, PKCE verifier,
  -- expiry) and which a consent form with the configured token had asked for.
  pub guard-interleave :
      {A : Type 0} (authorization : Header) (now : SystemTime) (next : Act Response A) (a : A)
      → (guard crypto parses
          (auth_state config)
          authorization
          now
          next
          (interleave crypto parses config events start).db).0
        ≡ ok a
      → (raw : Str) × (authorization ≡ some (bytes "Bearer " ++ raw))
        × ((trim raw ≡ config.token) ⊎ Entitled crypto config (arrivals events) now (trim raw))
  guard-interleave authorization now next a h =
      guard-Explained crypto parses config law (arrivals events) authorization now next a
        (interleave crypto parses config events start).db
        (interleave-Explained crypto config (arrivals events) parses law events start
          (IsAmong-All (arrivals events)) (rw idle tt)
          (record { codes = rw no_codes tt; tokens = rw no_tokens tt }))
        h

  -- With a comparison that answers equality, however the requests interleave and wherever the process
  -- is restarted, and when no request is
  -- under way and no code and no token is stored at the start: without a consent form that carried the
  -- configured token, nobody passes the guard who does not carry the configured token.
  pub guard-interleave_unconsented :
      ((form : ConsentForm) (code : Str) (now : SystemTime)
        → IsAmong (post_authorize form code now) (arrivals events)
        → trim form.token ≢ config.token)
      → {A : Type 0} (authorization : Header) (now : SystemTime) (next : Act Response A) (a : A)
      → (guard crypto parses
          (auth_state config)
          authorization
          now
          next
          (interleave crypto parses config events start).db).0
        ≡ ok a
      → (raw : Str) × (authorization ≡ some (bytes "Bearer " ++ raw)) × (trim raw ≡ config.token)
  guard-interleave_unconsented refused authorization now next a h =
      let (raw, bearer, reason) = guard-interleave authorization now next a h in
      (raw, bearer, unconsented crypto config (arrivals events) now (trim raw) refused reason)

  -- With a comparison that answers equality, and from a start without requests, codes and tokens: a
  -- configured token with white space around it lets nobody in, whatever the header, the requests
  -- before it and the restarts between them, with the authorization flow or without.
  pub guard-interleave_untrimmed :
      trim config.token ≢ config.token
      → {A : Type 0} (authorization : Header) (now : SystemTime) (next : Act Response A) (a : A)
      → (guard crypto parses
          (auth_state config)
          authorization
          now
          next
          (interleave crypto parses config events start).db).0
        ≢ ok a
  guard-interleave_untrimmed blank authorization now next a h =
      let never : (s : Str) → trim s ≢ config.token =
        λ s e. blank (ap trim (sym e) ∙ trim-trim s ∙ e) in
      let (raw, bearer, same) =
        guard-interleave_unconsented (λ form code at among. never form.token) authorization now next
          a h in
      never raw same
