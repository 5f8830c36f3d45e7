-- ===== src/FileTools/Walk/Matches.antt =====
-- src/fs_ops.rs: what `search` is to find, apart from its loops and its limit.
use local_mcp.Common.{
  ℕ, zero, suc, ◌+◌, ◌<◌, ◌≡◌, refl, sym, ap, ◌∙◌, Bool, true, false, Bool-cases, inl, inr, Option,
  none, some, List, [], ◌∷◌, ◌++◌, append-nil, append_assoc, leb, ltb, max, length, take, arith,
  if◌then◌else◌,
}
use local_mcp.Common.Str.{Str, bytes, lines}
use local_mcp.Root.{Root}
use local_mcp.FileTools.{Os, shown}
use local_mcp.FileTools.Walk.{
  Entry, Scan, and_then, going, stopped, hit_line, stop_note, or_note, scan_lines, searched,
  scan_entry, scan, scanned,
}

-- The lines of a text that match, as they are shown.
abbrev pub matches_of : Str → (Str → Bool) → ℕ → List Str → List Str
matches_of shown is_match n [] = []
matches_of shown is_match n (line ∷ rest) =
    if is_match line
    then hit_line shown n line ∷ matches_of shown is_match (suc n) rest
    else matches_of shown is_match (suc n) rest

module _ {D : Type 0} (os : Os D) (root : Root) (is_match : Str → Bool) (d : D) where
  abbrev pub matches_in : Entry → List Str
  matches_in e = elim (searched os d e) [
    | none ↦ []
    | some text ↦ matches_of (shown root e.path) is_match 1 (lines text)
  ]

  -- All matches below a directory, in the order of the walk.
  abbrev pub all_matches : List Entry → List Str
  all_matches [] = []
  all_matches (e ∷ entries) = matches_in e ++ all_matches entries

abbrev pub concat : List Str → Str
concat [] = []
concat (s ∷ ss) = s ++ concat ss

-- The answer for a list of matches: all of them, or as many as the limit allows and one at least,
-- with a note.
abbrev pub report : ℕ → List Str → Str
report limit hits =
    if ltb (length hits) (max 1 limit)
    then or_note (bytes "(no matches)") (concat hits)
    else concat (take (max 1 limit) hits) ++ stop_note limit

-- The loops over a list of matches.
abbrev gather : ℕ → List Str → Str → ℕ → Scan
gather limit [] out hits = going out hits
gather limit (m ∷ ms) out hits =
    if leb limit (suc hits)
    then stopped ((out ++ m) ++ stop_note limit)
    else gather limit ms (out ++ m) (suc hits)

gather-append :
    (limit : ℕ) (xs ys : List Str) (out : Str) (hits : ℕ)
    → gather limit (xs ++ ys) out hits ≡ and_then (gather limit xs out hits) (gather limit ys)
gather-append limit [] ys out hits = refl
gather-append limit (x ∷ xs) ys out hits = elim (Bool-cases (leb limit (suc hits))) [
  | inl full ↦ rw full refl
  | inr room ↦ rw room (gather-append limit xs ys (out ++ x) (suc hits))
]

scan_lines-gather :
    (name : Str) (is_match : Str → Bool) (limit n : ℕ) (ls : List Str) (out : Str) (hits : ℕ)
    → scan_lines name is_match limit n ls out hits
      ≡ gather limit (matches_of name is_match n ls) out hits
unfolding scan_lines
scan_lines-gather name is_match limit n [] out hits = refl
scan_lines-gather name is_match limit n (l ∷ ls) out hits = elim (Bool-cases (is_match l)) [
  | inr other ↦ rw (other, scan_lines) (scan_lines-gather name is_match limit (suc n) ls out hits)
  | inl hit ↦ elim (Bool-cases (leb limit (suc hits))) [
    | inl full ↦ rw (hit, scan_lines, full) refl
    | inr room ↦
        rw (hit, scan_lines, room)
          (scan_lines-gather name is_match limit (suc n) ls (out ++ hit_line name n l) (suc hits))
  ]
]

same_rest :
    (s : Scan) (f g : Str → ℕ → Scan)
    → ((out : Str) (hits : ℕ) → f out hits ≡ g out hits)
    → and_then s f ≡ and_then s g
same_rest (going out hits) f g h = h out hits
same_rest (stopped text) f g h = refl

module _ {D : Type 0} (os : Os D) (root : Root) (is_match : Str → Bool) (limit : ℕ) (d : D) where
  scan_entry-gather :
      (e : Entry) (out : Str) (hits : ℕ)
      → scan_entry os root is_match limit d e out hits
        ≡ gather limit (matches_in os root is_match d e) out hits
  unfolding scan_entry
  scan_entry-gather e out hits = by_text (searched os d e)
    where
      by_text :
          (o : Option Str)
          → elim o [
            | none ↦ going out hits
            | some text ↦ scan_lines (shown root e.path) is_match limit 1 (lines text) out hits
          ]
            ≡ gather limit
                (elim o [
                  | none ↦ []
                  | some text ↦ matches_of (shown root e.path) is_match 1 (lines text)
                ])
                out
                hits
      by_text none = refl
      by_text (some text) =
          scan_lines-gather (shown root e.path) is_match limit 1 (lines text) out hits

  scan-gather :
      (entries : List Entry) (out : Str) (hits : ℕ)
      → scan os root is_match limit d entries out hits
        ≡ gather limit (all_matches os root is_match d entries) out hits
  unfolding scan
  scan-gather [] out hits = refl
  scan-gather (e ∷ entries) out hits =
      ap (λ (s : Scan). and_then s (scan os root is_match limit d entries))
        (scan_entry-gather e out hits)
      ∙ same_rest (gather limit (matches_in os root is_match d e) out hits) _ _
          (scan-gather entries)
      ∙ sym (
          gather-append limit (matches_in os root is_match d e)
            (all_matches os root is_match d entries) out hits)

-- What the loops leave, for any number of matches found before.
gather-room :
    (limit : ℕ) (ms : List Str) (out : Str) (hits room : ℕ)
    → room + hits ≡ max 1 limit
    → 0 < room
    → gather limit ms out hits ≡ (
        if ltb (length ms) room
        then going (out ++ concat ms) (hits + length ms)
        else stopped ((out ++ concat (take room ms)) ++ stop_note limit))
gather-room limit ms out hits zero sum some_room = absurd (omega (arith, some_room))
gather-room limit [] out hits (suc room) sum some_room =
    let fits : ltb 0 (suc room) ≡ true = ground arith in
    rw (fits, append-nil out) (ap (λ n. going out n) (omega arith))
gather-room limit (m ∷ ms) out hits (suc zero) sum some_room =
    let full : leb limit (suc hits) ≡ true = ground (arith, sum) in
    let over : ltb (suc (length ms)) 1 ≡ false = ground arith in rw (full, over, append-nil m) refl
gather-room limit (m ∷ ms) out hits (suc (suc room)) sum some_room =
    let open_yet : leb limit (suc hits) ≡ false = ground (arith, sum) in
    let same : ltb (length ms) (suc room) ≡ ltb (suc (length ms)) (suc (suc room)) = ground arith in
    rw open_yet (
      gather-room limit ms (out ++ m) (suc hits) (suc room) (omega (arith, sum)) (omega arith)
      ∙ (λ i.
          if same i
          then going (append_assoc out m (concat ms) i) (shift (length ms) i)
          else stopped (append_assoc out m (concat (take (suc room) ms)) i ++ stop_note limit)))
  where
    shift : (n : ℕ) → suc hits + n ≡ hits + suc n
    shift n = omega arith

-- The loops of `search` and its report of the matches.
pub scan-report :
    {D : Type 0} (os : Os D) (root : Root) (is_match : Str → Bool) (limit : ℕ) (d : D)
    (entries : List Entry)
    → scanned (scan os root is_match limit d entries [] 0)
      ≡ report limit (all_matches os root is_match d entries)
scan-report os root is_match limit d entries =
    let hits = all_matches os root is_match d entries in
    ap scanned (
      scan-gather os root is_match limit d entries [] 0
      ∙ gather-room limit hits [] 0 (max 1 limit) (omega arith) (omega arith))
    ∙ by_room (ltb (length hits) (max 1 limit)) _ _
  where
    by_room :
        (b : Bool) (x y : Scan)
        → scanned (if b then x else y) ≡ (if b then scanned x else scanned y)
    by_room true x y = refl
    by_room false x y = refl
