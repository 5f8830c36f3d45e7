-- ===== src/Common/Trim.antt =====
-- `trim` takes all there is to take: a second one takes nothing.
use local_mcp.Common.{
  ◌≡◌, refl, sym, ap, ◌∙◌, subst, false, Bool-cases, inl, inr, [], ◌∷◌, ◌++◌, reverse,
  reverse-append, reverse-reverse,
}
use local_mcp.Common.Str.{Str, ascii_white, white2, white3, trim_start, trim_reversed, trim}

-- No white space at the start.
abbrev IsBare : Str → Type 0
IsBare [] = Unit {0}
IsBare (a ∷ []) = ascii_white a ≡ false
IsBare (a ∷ b ∷ []) = (ascii_white a ≡ false) × (white2 a b ≡ false)
IsBare (a ∷ b ∷ c ∷ s) = (ascii_white a ≡ false) × (white2 a b ≡ false) × (white3 a b c ≡ false)

IsBare-trim_start : (s : Str) → IsBare (trim_start s)
unfolding trim_start
IsBare-trim_start [] = tt
IsBare-trim_start (a ∷ []) = elim (Bool-cases (ascii_white a)) [ inl w ↦ rw w tt | inr n ↦ rw n n ]
IsBare-trim_start (a ∷ b ∷ []) = elim (Bool-cases (ascii_white a)) [
  | inl w ↦ rw w (IsBare-trim_start (b ∷ []))
  | inr n ↦ rw n (elim (Bool-cases (white2 a b)) [ inl w ↦ rw w tt | inr m ↦ rw m (n, m) ])
]
IsBare-trim_start (a ∷ b ∷ c ∷ s) = elim (Bool-cases (ascii_white a)) [
  | inl w ↦ rw w (IsBare-trim_start (b ∷ c ∷ s))
  | inr n ↦ rw n (elim (Bool-cases (white2 a b)) [
    | inl w ↦ rw w (IsBare-trim_start (c ∷ s))
    | inr m ↦ rw m (elim (Bool-cases (white3 a b c)) [
      | inl w ↦ rw w (IsBare-trim_start s)
      | inr k ↦ rw k (n, m, k)
    ])
  ])
]

trim_start-IsBare : (s : Str) → IsBare s → trim_start s ≡ s
unfolding trim_start
trim_start-IsBare [] h = refl
trim_start-IsBare (a ∷ []) h = rw h refl
trim_start-IsBare (a ∷ b ∷ []) (n, m) = rw (n, m) refl
trim_start-IsBare (a ∷ b ∷ c ∷ s) (n, m, k) = rw (n, m, k) refl

-- The start of a text without white space at the start has none.
IsBare-prefix : (s t : Str) → IsBare (s ++ t) → IsBare s
IsBare-prefix [] t h = tt
IsBare-prefix (a ∷ []) [] h = h
IsBare-prefix (a ∷ []) (b ∷ []) h = h.0
IsBare-prefix (a ∷ []) (b ∷ c ∷ t) h = h.0
IsBare-prefix (a ∷ b ∷ []) [] h = h
IsBare-prefix (a ∷ b ∷ []) (c ∷ t) h = (h.0, h.1)
IsBare-prefix (a ∷ b ∷ c ∷ s) t h = h

-- The same for the end, on the reversed bytes.
abbrev IsBareEnd : Str → Type 0
IsBareEnd [] = Unit {0}
IsBareEnd (a ∷ []) = ascii_white a ≡ false
IsBareEnd (b ∷ a ∷ []) = (ascii_white b ≡ false) × (white2 a b ≡ false)
IsBareEnd (c ∷ b ∷ a ∷ s) = (ascii_white c ≡ false) × (white2 b c ≡ false) × (white3 a b c ≡ false)

IsBareEnd-trim_reversed : (s : Str) → IsBareEnd (trim_reversed s)
unfolding trim_reversed
IsBareEnd-trim_reversed [] = tt
IsBareEnd-trim_reversed (a ∷ []) = elim (Bool-cases (ascii_white a)) [
  | inl w ↦ rw w tt
  | inr n ↦ rw n n
]
IsBareEnd-trim_reversed (b ∷ a ∷ []) = elim (Bool-cases (ascii_white b)) [
  | inl w ↦ rw w (IsBareEnd-trim_reversed (a ∷ []))
  | inr n ↦ rw n (elim (Bool-cases (white2 a b)) [ inl w ↦ rw w tt | inr m ↦ rw m (n, m) ])
]
IsBareEnd-trim_reversed (c ∷ b ∷ a ∷ s) = elim (Bool-cases (ascii_white c)) [
  | inl w ↦ rw w (IsBareEnd-trim_reversed (b ∷ a ∷ s))
  | inr n ↦ rw n (elim (Bool-cases (white2 b c)) [
    | inl w ↦ rw w (IsBareEnd-trim_reversed (a ∷ s))
    | inr m ↦ rw m (elim (Bool-cases (white3 a b c)) [
      | inl w ↦ rw w (IsBareEnd-trim_reversed s)
      | inr k ↦ rw k (n, m, k)
    ])
  ])
]

trim_reversed-IsBareEnd : (s : Str) → IsBareEnd s → trim_reversed s ≡ s
unfolding trim_reversed
trim_reversed-IsBareEnd [] h = refl
trim_reversed-IsBareEnd (a ∷ []) h = rw h refl
trim_reversed-IsBareEnd (b ∷ a ∷ []) (n, m) = rw (n, m) refl
trim_reversed-IsBareEnd (c ∷ b ∷ a ∷ s) (n, m, k) = rw (n, m, k) refl

-- What `trim_reversed` leaves is an end of what it is given.
trim_reversed_suffix : (s : Str) → (gone : Str) × (s ≡ gone ++ trim_reversed s)
unfolding trim_reversed
trim_reversed_suffix [] = ([], refl)
trim_reversed_suffix (a ∷ []) = elim (Bool-cases (ascii_white a)) [
  | inl w ↦ (a ∷ [], rw w refl)
  | inr n ↦ ([], rw n refl)
]
trim_reversed_suffix (b ∷ a ∷ []) = elim (Bool-cases (ascii_white b)) [
  | inl w ↦
      let (gone, e) = trim_reversed_suffix (a ∷ []) in (b ∷ gone, rw w (ap (λ (t : Str). b ∷ t) e))
  | inr n ↦ elim (Bool-cases (white2 a b)) [
    | inl w ↦ (b ∷ a ∷ [], rw (n, w) refl)
    | inr m ↦ ([], rw (n, m) refl)
  ]
]
trim_reversed_suffix (c ∷ b ∷ a ∷ s) = elim (Bool-cases (ascii_white c)) [
  | inl w ↦
      let (gone, e) = trim_reversed_suffix (b ∷ a ∷ s) in
      (c ∷ gone, rw w (ap (λ (t : Str). c ∷ t) e))
  | inr n ↦ elim (Bool-cases (white2 b c)) [
    | inl w ↦
        let (gone, e) = trim_reversed_suffix (a ∷ s) in
        (c ∷ b ∷ gone, rw (n, w) (ap (λ (t : Str). c ∷ b ∷ t) e))
    | inr m ↦ elim (Bool-cases (white3 a b c)) [
      | inl w ↦
          let (gone, e) = trim_reversed_suffix s in
          (c ∷ b ∷ a ∷ gone, rw (n, m, w) (ap (λ (t : Str). c ∷ b ∷ a ∷ t) e))
      | inr k ↦ ([], rw (n, m, k) refl)
    ]
  ]
]

IsBare-trim : (s : Str) → IsBare (trim s)
unfolding trim
IsBare-trim s =
    let u = trim_start s in
    let (gone, e) = trim_reversed_suffix (reverse u) in
    let whole : u ≡ reverse (trim_reversed (reverse u)) ++ reverse gone =
      sym (reverse-reverse u) ∙ ap reverse e ∙ reverse-append gone (trim_reversed (reverse u)) in
    IsBare-prefix (reverse (trim_reversed (reverse u))) (reverse gone)
      (subst IsBare whole (IsBare-trim_start s))

pub trim-trim : (s : Str) → trim (trim s) ≡ trim s
trim-trim s =
    let r = trim_reversed (reverse (trim_start s)) in
    let ended : trim s ≡ reverse r = (unfold trim in refl) in
    let again : trim (trim s) ≡ reverse (trim_reversed (reverse (trim s))) =
      (unfold trim in
        ap (λ (t : Str). reverse (trim_reversed (reverse t)))
          (trim_start-IsBare (trim s) (IsBare-trim s))) in
    again
    ∙ ap (λ (t : Str). reverse (trim_reversed t)) (ap reverse ended ∙ reverse-reverse r)
    ∙ ap reverse (trim_reversed-IsBareEnd r (IsBareEnd-trim_reversed (reverse (trim_start s))))
    ∙ sym ended
