-- ===== src/Service/Origin.antt =====
-- Where the codes and tokens in the database come from: the requests that asked for them.
use local_mcp.Common.{◌≡◌, subst, ◌⊎◌, inl, inr, Bool, Bool-cases, some, List, [], ◌∷◌, All, arith}
use local_mcp.Common.Str.{Str, trim}
use local_mcp.Common.Eq.{Eq}
use local_mcp.Table.{find, erase, delete_where}
use local_mcp.Store.Clock.{SystemTime}
use local_mcp.Store.Tables.{Tables, CodeRow, TokenRow}
use local_mcp.Store.{code_row, of_code_row}
use local_mcp.OAuth.{Crypto, ConsentForm, TokenRequest, pending_of}
use local_mcp.OAuth.Exchange.{Granted, token_row}
use local_mcp.Service.{Settings, Request, post_authorize, post_token}

-- The request is one of the history.
abbrev pub IsAmong : Request → List Request → Type 0
IsAmong r [] = ⊥
IsAmong r (q ∷ history) = (r ≡ q) ⊎ IsAmong r history

module _ (crypto : Crypto) (config : Settings) (history : List Request) where
  -- A code stems from a consent form of the history that carried the configured token.
  pub record CodeOrigin (row : CodeRow) : Type 0 where
    pub form : ConsentForm
    pub code : Str
    pub now : SystemTime
    pub submitted : IsAmong (post_authorize form code now) history
    pub consented : trim form.token ≡ config.token
    pub stored : row ≡ code_row code (pending_of form now)

  -- A token stems from a token request of the history, for a code of such an origin that agreed
  -- with the request.
  pub record TokenOrigin (row : TokenRow) : Type 0 where
    pub request : TokenRequest
    pub access_token : Str
    pub now : SystemTime
    pub later : SystemTime
    pub requested : IsAmong (post_token request access_token now later) history
    pub stored : row ≡ token_row access_token later
    pub code : CodeRow
    pub code_origin : CodeOrigin code
    pub named : code.code ≡ request.code
    pub granted : Granted crypto request (of_code_row code) now

  pub record Explained (t : Tables) : Type 0 where
    pub codes : All CodeOrigin t.codes
    pub tokens : All TokenOrigin t.tokens

module _ {R K : Type 0} ⦃e : Eq K⦄ (key : R → K) (P : R → Type 0) where
  pub erase-All : (k : K) (rows : List R) → All P rows → All P (erase key k rows)
  unfolding erase
  erase-All k [] h = tt
  erase-All k (r ∷ rows) (p, h) = elim (Bool-cases (e.beq (key r) k)) [
    | inl goes ↦ rw goes (erase-All k rows h)
    | inr stays ↦ rw stays (p, erase-All k rows h)
  ]

  pub find-All : (k : K) (rows : List R) (r : R) → All P rows → find key k rows ≡ some r → P r
  unfolding find
  find-All k [] r h found = cc
  find-All k (q ∷ rows) r (p, h) found = elim (Bool-cases (e.beq (key q) k)) [
    | inl here ↦ let same : some q ≡ some r = rw here at found in subst P (ground (arith, same)) p
    | inr there ↦ find-All k rows r h (rw there at found)
  ]

module _ {R : Type 0} (P : R → Type 0) where
  pub delete_where-All :
      (stale : R → Bool) (rows : List R) → All P rows → All P (delete_where stale rows)
  unfolding delete_where
  delete_where-All stale [] h = tt
  delete_where-All stale (r ∷ rows) (p, h) = elim (Bool-cases (stale r)) [
    | inl goes ↦ rw goes (delete_where-All stale rows h)
    | inr stays ↦ rw stays (p, delete_where-All stale rows h)
  ]
