-- ===== src/OAuth/Page/Escape.antt =====
-- src/oauth.rs: `escape` and the consent page.
use local_mcp.Common.{
  ℕ, ◌≡◌, refl, sym, ap, ◌∙◌, subst, Option, none, some, [], ◌∷◌, ◌++◌, append_assoc, All,
  All-append, Bool, true, ◌&&◌, not, ◌==◌, if◌then◌else◌, Bool-cases, inl, inr, ==_iff, arith,
}
use local_mcp.Common.Str.{Str, bytes}
use local_mcp.Common.Result.{is_some}
use local_mcp.OAuth.Page.{
  AuthorizeParams, replace_byte, escape, hidden, message, page_head, page_tail, consent_page,
}

-- What one byte becomes.
abbrev pub entity : ℕ → Str
entity b =
    if b == b'&'
    then bytes "&amp;"
    else if b == b'<'
    then bytes "&lt;"
    else if b == b'>'
    then bytes "&gt;"
    else if b == b'"'
    then bytes "&quot;"
    else b ∷ []

-- The specification: every byte by itself, in one pass.
unfoldable pub escape_each : Str → Str
escape_each [] = []
escape_each (b ∷ s) = entity b ++ escape_each s

replace_byte-append :
    (c : ℕ) (with s t : Str)
    → replace_byte c with (s ++ t) ≡ replace_byte c with s ++ replace_byte c with t
unfolding replace_byte
replace_byte-append c with [] t = refl
replace_byte-append c with (b ∷ s) t = elim (Bool-cases (b == c)) [
  | inl e ↦ rw e (
      ap (λ (r : Str). with ++ r) (replace_byte-append c with s t)
      ∙ sym (append_assoc with (replace_byte c with s) (replace_byte c with t)))
  | inr e ↦ rw e (ap (λ (r : Str). b ∷ r) (replace_byte-append c with s t))
]

-- The pass over one byte, by what the four tests answer.
escape_byte : (b : ℕ) → escape (b ∷ []) ≡ entity b
unfolding escape replace_byte
escape_byte b = elim (Bool-cases (b == b'&')) [
  | inl e ↦ subst (λ c. escape (c ∷ []) ≡ entity c) (sym ((==_iff b b'&').0 e)) refl
  | inr not_amp ↦ elim (Bool-cases (b == b'<')) [
    | inl e ↦ subst (λ c. escape (c ∷ []) ≡ entity c) (sym ((==_iff b b'<').0 e)) refl
    | inr not_lt ↦ elim (Bool-cases (b == b'>')) [
      | inl e ↦ subst (λ c. escape (c ∷ []) ≡ entity c) (sym ((==_iff b b'>').0 e)) refl
      | inr not_gt ↦ elim (Bool-cases (b == b'"')) [
        | inl e ↦ subst (λ c. escape (c ∷ []) ≡ entity c) (sym ((==_iff b b'"').0 e)) refl
        | inr not_quot ↦ rw (not_amp, not_lt, not_gt, not_quot) refl
      ]
    ]
  ]
]

escape-append : (s t : Str) → escape (s ++ t) ≡ escape s ++ escape t
unfolding escape
escape-append s t =
    rw (replace_byte-append, replace_byte-append, replace_byte-append, replace_byte-append) refl

escape_nil : escape [] ≡ []
unfolding escape replace_byte
escape_nil = refl

-- The four passes of `escape` replace every byte of the text by its own entity: no pass touches what
-- another has written.
pub escape_lem : (s : Str) → escape s ≡ escape_each s
unfolding escape_each
escape_lem [] = escape_nil
escape_lem (b ∷ s) =
    escape-append (b ∷ []) s
    ∙ ap (λ (r : Str). r ++ escape s) (escape_byte b)
    ∙ ap (λ (r : Str). entity b ++ r) (escape_lem s)

-- A byte that opens no tag, closes none and ends no quoted attribute.
abbrev pub is_inert : ℕ → Bool
is_inert b = not (b == b'<') && not (b == b'>') && not (b == b'"')

entity-inert : (b : ℕ) → All (λ c. is_inert c ≡ true) (entity b)
entity-inert b = ground arith

escape_each-inert : (s : Str) → All (λ c. is_inert c ≡ true) (escape_each s)
unfolding escape_each
escape_each-inert [] = tt
escape_each-inert (b ∷ s) =
    All-append _ (entity b) (escape_each s) (entity-inert b) (escape_each-inert s)

escape-inert : (s : Str) → All (λ c. is_inert c ≡ true) (escape s)
escape-inert s = subst (All (λ c. is_inert c ≡ true)) (sym (escape_lem s)) (escape_each-inert s)

-- The bytes of a page that are read as markup.
unfoldable pub markup : Str → Str
markup [] = []
markup (b ∷ s) = let rest = markup s in if is_inert b then rest else b ∷ rest

markup-append : (s t : Str) → markup (s ++ t) ≡ markup s ++ markup t
unfolding markup
markup-append [] t = refl
markup-append (b ∷ s) t = elim (Bool-cases (is_inert b)) [
  | inl plain ↦ rw plain (markup-append s t)
  | inr opened ↦ rw opened (ap (λ (r : Str). b ∷ r) (markup-append s t))
]

markup-inert : (s : Str) → All (λ c. is_inert c ≡ true) s → markup s ≡ []
unfolding markup
markup-inert [] h = refl
markup-inert (b ∷ s) (plain, h) = rw plain (markup-inert s h)

markup-escape : (s t : Str) → markup (escape s) ≡ markup (escape t)
markup-escape s t =
    markup-inert (escape s) (escape-inert s) ∙ sym (markup-inert (escape t) (escape-inert t))

both :
    (s s' t t' : Str)
    → markup s ≡ markup s'
    → markup t ≡ markup t'
    → markup (s ++ t) ≡ markup (s' ++ t')
both s s' t t' p q =
    markup-append s t
    ∙ ap (λ (r : Str). r ++ markup t) p
    ∙ ap (λ (r : Str). markup s' ++ r) q
    ∙ sym (markup-append s' t')

hidden-markup : (name v w : Str) → markup (hidden name (escape v)) ≡ markup (hidden name (escape w))
hidden-markup name v w =
    let opening : Str = bytes "  <input type=\"hidden\" name=\"" ++ name ++ bytes "\" value=\"" in
    let closing : Str = bytes "\">\n" in
    both (opening ++ escape v) (opening ++ escape w) closing closing
      (both opening opening (escape v) (escape w) refl (markup-escape v w)) refl

message-markup :
    (e e' : Option Str) → is_some e ≡ is_some e' → markup (message e) ≡ markup (message e')
message-markup none none h = refl
message-markup none (some e) h = cc
message-markup (some e) none h = cc
message-markup (some e) (some e') h =
    let opening : Str = bytes "<p class=\"error\">" in
    let closing : Str = bytes "</p>" in
    both (opening ++ escape e) (opening ++ escape e') closing closing
      (both opening opening (escape e) (escape e') refl (markup-escape e e')) refl

-- Whatever a client asks for, and whatever the message says, the angle brackets and quotation marks of
-- the consent page are the same, in the same order: they are the template's, and depend on nothing but
-- whether there is a message.
pub consent_page-markup :
    (params params' : AuthorizeParams) (error error' : Option Str)
    → is_some error ≡ is_some error'
    → markup (consent_page params error) ≡ markup (consent_page params' error')
unfolding consent_page
consent_page-markup params params' error error' h =
    let line : Str = bytes "\n" in
    let a : AuthorizeParams → Option Str → Str = λ p e. page_head ++ message e ++ bytes "\n" in
    let b : AuthorizeParams → Option Str → Str =
      λ p e. a p e ++ hidden (bytes "client_id") (escape p.client_id) in
    let c : AuthorizeParams → Option Str → Str =
      λ p e. b p e ++ hidden (bytes "redirect_uri") (escape p.redirect_uri) in
    let d : AuthorizeParams → Option Str → Str =
      λ p e. c p e ++ hidden (bytes "state") (escape p.state) in
    let f : AuthorizeParams → Option Str → Str =
      λ p e. d p e ++ hidden (bytes "code_challenge") (escape p.code_challenge) in
    both (f params error) (f params' error') page_tail page_tail
      (both (d params error) (d params' error') _ _
        (both (c params error) (c params' error') _ _
          (both (b params error) (b params' error') _ _
            (both (a params error) (a params' error') _ _
              (both (page_head ++ message error) (page_head ++ message error') line line
                (both page_head page_head (message error) (message error') refl
                  (message-markup error error' h))
                refl)
              (hidden-markup (bytes "client_id") params.client_id params'.client_id))
            (hidden-markup (bytes "redirect_uri") params.redirect_uri params'.redirect_uri))
          (hidden-markup (bytes "state") params.state params'.state))
        (hidden-markup (bytes "code_challenge") params.code_challenge params'.code_challenge))
      refl
