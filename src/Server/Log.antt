-- ===== src/Server/Log.antt =====
-- src/server.rs: what goes into the log: `elide`, `arguments` and `detail`.
use local_mcp.Common.{
  ℕ, zero, suc, ◌≤◌, ◌≡◌, ◌⊎◌, refl, sym, ap, subst, true, false, Bool-cases, inl, inr, Option,
  none, some, Option-cases, some-inj, [], ◌∷◌, ◌++◌, length, take, arith, if◌then◌else◌,
}
use local_mcp.Common.Str.{Str, bytes}
use local_mcp.Common.Decimal.{decimal}
use local_mcp.Common.Utf8.{is_continuation}
use local_mcp.Common.Result.{Result, ok, err}
use local_mcp.Json.{Json, Fields, string, object, close, field}
use local_mcp.Server.{text_block, other_block, CallToolResult}

abbrev pub argument_elision : ℕ
argument_elision = 160

abbrev pub detail_elision : ℕ
detail_elision = 240

abbrev after_byte : Option ℕ → Option ℕ
after_byte none = none
after_byte (some n) = some (suc n)

-- The place of `text.char_indices().nth(n)`: a character begins at every byte that continues none.
unfoldable pub nth_char : ℕ → Str → Option ℕ
nth_char n [] = none
nth_char n (b ∷ s) = elim (is_continuation b) [
  | true ↦ after_byte (nth_char n s)
  | false ↦ elim n [ zero ↦ some 0 | suc m ↦ after_byte (nth_char m s) ]
]

unfoldable pub elide : Str → ℕ → Str
elide text limit = elim (nth_char limit text) [
  | some cut ↦ take cut text ++ bytes "... [" ++ decimal (length text) ++ bytes " bytes]"
  | none ↦ text
]

abbrev pub elide_value : Json → Json
elide_value (string text) = string (elide text argument_elision)
elide_value other = other

abbrev pub elide_fields : Fields → Fields
elide_fields close = close
elide_fields (field key value rest) = field key (elide_value value) (elide_fields rest)

-- `arguments`, with `serde_json::to_string`
unfoldable pub arguments : {E : Type 0} → (Json → Result E Str) → Option Fields → Str
arguments to_string none = bytes "{}"
arguments to_string (some fields) = elim (to_string (object (elide_fields fields))) [
  | ok text ↦ text
  | err _ ↦ bytes "<unprintable>"
]

unfoldable pub detail : CallToolResult → Str
detail result = elim result.content [
  | text_block text ∷ _ ↦ elide text detail_elision
  | other_block ∷ _ ↦ bytes "<no content>"
  | [] ↦ bytes "<no content>"
]

-- The number of characters of a text.
abbrev pub characters : Str → ℕ
characters [] = 0
characters (b ∷ s) = if is_continuation b then characters s else suc (characters s)

-- The start of a text with so many characters, where more follow.
pub record Cut (text : Str) (limit : ℕ) (kept : Str) : Type 0 where
  pub byte : ℕ
  pub rest : Str
  pub splits : text ≡ kept ++ byte ∷ rest
  pub begins : is_continuation byte ≡ false
  pub counts : characters kept ≡ limit

longer :
    (b : ℕ) (s kept : Str) (n : ℕ)
    → is_continuation b ≡ true
    → Cut s n kept
    → Cut (b ∷ s) n (b ∷ kept)
longer b s kept n inside c = record {
  byte = c.byte;
  rest = c.rest;
  splits = ap (λ (l : Str). b ∷ l) c.splits;
  begins = c.begins;
  counts = rw inside c.counts;
}

one_more :
    (b : ℕ) (s kept : Str) (n : ℕ)
    → is_continuation b ≡ false
    → Cut s n kept
    → Cut (b ∷ s) (suc n) (b ∷ kept)
one_more b s kept n starts c = record {
  byte = c.byte;
  rest = c.rest;
  splits = ap (λ (l : Str). b ∷ l) c.splits;
  begins = c.begins;
  counts = rw starts (ap (λ k. suc k) c.counts);
}

after_byte-some :
    (o : Option ℕ) (cut : ℕ) → after_byte o ≡ some cut → (k : ℕ) × (o ≡ some k) × (cut ≡ suc k)
after_byte-some none cut h = cc
after_byte-some (some k) cut h = (k, refl, ground (arith, h))

after_byte-none : (o : Option ℕ) → after_byte o ≡ none → o ≡ none
after_byte-none none h = refl
after_byte-none (some k) h = cc

take-suc : (b : ℕ) (s : Str) (cut k : ℕ) → cut ≡ suc k → take cut (b ∷ s) ≡ b ∷ take k s
take-suc b s cut k e = rw e refl

nth_char-some : (n : ℕ) (s : Str) (cut : ℕ) → nth_char n s ≡ some cut → Cut s n (take cut s)
unfolding nth_char
nth_char-some n [] cut h = cc
nth_char-some zero (b ∷ s) cut h = elim (Bool-cases (is_continuation b)) [
  | inl inside ↦
      let (k, found, next) = after_byte-some (nth_char zero s) cut (rw (inside, nth_char) at h) in
      subst (Cut (b ∷ s) zero) (sym (take-suc b s cut k next))
        (longer b s (take k s) zero inside (nth_char-some zero s k found))
  | inr starts ↦
      let here : 0 ≡ cut = some-inj 0 cut (rw (starts, nth_char) at h) in
      subst (λ (k : ℕ). Cut (b ∷ s) zero (take k (b ∷ s))) here
        (record { byte = b; rest = s; splits = refl; begins = starts; counts = refl })
]
nth_char-some (suc n) (b ∷ s) cut h = elim (Bool-cases (is_continuation b)) [
  | inl inside ↦
      let (k, found, next) =
        after_byte-some (nth_char (suc n) s) cut (rw (inside, nth_char) at h) in
      subst (Cut (b ∷ s) (suc n)) (sym (take-suc b s cut k next))
        (longer b s (take k s) (suc n) inside (nth_char-some (suc n) s k found))
  | inr starts ↦
      let (k, found, next) = after_byte-some (nth_char n s) cut (rw (starts, nth_char) at h) in
      subst (Cut (b ∷ s) (suc n)) (sym (take-suc b s cut k next))
        (one_more b s (take k s) n starts (nth_char-some n s k found))
]

some-ne-none : {P : Type 0} (n : ℕ) → some n ≡ none → P
some-ne-none n h = cc

nth_char-none : (n : ℕ) (s : Str) → nth_char n s ≡ none → characters s ≤ n
unfolding nth_char
nth_char-none n [] h = omega arith
nth_char-none zero (b ∷ s) h = elim (Bool-cases (is_continuation b)) [
  | inl inside ↦ rw inside (nth_char-none zero s (after_byte-none _ (rw (inside, nth_char) at h)))
  | inr starts ↦ some-ne-none 0 (rw (starts, nth_char) at h)
]
nth_char-none (suc n) (b ∷ s) h = elim (Bool-cases (is_continuation b)) [
  | inl inside ↦
      rw inside (nth_char-none (suc n) s (after_byte-none _ (rw (inside, nth_char) at h)))
  | inr starts ↦
      let few : characters s ≤ n =
        nth_char-none n s (after_byte-none _ (rw (starts, nth_char) at h)) in
      rw starts (omega (arith, few))
]

-- A text of at most so many characters is logged as it is; of a longer one exactly so many
-- characters are, never a part of one, and the number of its bytes.
pub elide_lem :
    (text : Str) (limit : ℕ)
    → ((characters text ≤ limit) × (elide text limit ≡ text))
      ⊎ ((kept : Str) × Cut text limit kept
          × (elide text limit ≡ kept ++ bytes "... [" ++ decimal (length text) ++ bytes " bytes]"))
unfolding elide
elide_lem text limit = elim (Option-cases (nth_char limit text)) [
  | inl short ↦ inl (nth_char-none limit text short, rw (short, elide) refl)
  | inr (cut, found) ↦
      inr (take cut text, nth_char-some limit text cut found, rw (found, elide) refl)
]
