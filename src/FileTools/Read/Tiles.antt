-- ===== src/FileTools/Read/Tiles.antt =====
-- src/fs_ops.rs: reading a file in parts with `read_file`.
use local_mcp.Common.{
  ℕ, zero, suc, ◌+◌, ◌^◌, ◌<◌, ◌≤◌, ◌≡◌, refl, sym, ap, ◌∙◌, ◌⊎◌, false, Bool-cases, inl, inr, none,
  some, List, [], ◌∷◌, ◌++◌, ltb, length, length-append, length-take, take, drop, take-append-drop,
  append_assoc, arith,
}
use local_mcp.Common.Str.{Str}
use local_mcp.Common.Utf8.{is_char_boundary}
use local_mcp.Common.Result.{ok, err-ne-ok, ok-inj}
use local_mcp.Root.{Root}
use local_mcp.FileTools.{Os, shown}
use local_mcp.FileTools.Output.{Call, returned, panicked, mark, truncate, returned-inj}
use local_mcp.FileTools.Read.{numbered, numbered_line, read_window, read_file}
use local_mcp.FileTools.Read.Window.{
  past_end, past_end-false, read_window_lem, text_of, read_file-Reading, read_file_ok,
}

numbered-append :
    (n : ℕ) (xs ys : List Str)
    → numbered n (xs ++ ys) ≡ numbered n xs ++ numbered (n + length xs) ys
unfolding numbered
numbered-append n [] ys = ap (λ m. numbered m ys) (omega arith)
numbered-append n (x ∷ xs) ys =
    ap (λ (s : Str). numbered_line n x ++ s)
      (numbered-append (suc n) xs ys ∙ ap (λ m. numbered (suc n) xs ++ numbered m ys) (omega arith))
    ∙ sym
        (append_assoc (numbered_line n x) (numbered (suc n) xs) (numbered (n + length (x ∷ xs)) ys))

truncate_fits :
    (text : Str) (max_output : ℕ)
    → length text ≤ max_output
    → truncate text max_output ≡ returned text
unfolding truncate
truncate_fits text max_output h =
    let short : ltb max_output (length text) ≡ false = ground (arith, h) in rw short refl

-- A text that comes back within the limit is the whole text.
truncate-whole :
    (text out : Str) (max_output : ℕ)
    → truncate text max_output ≡ returned out
    → length out ≤ max_output
    → text ≡ out
unfolding truncate
truncate-whole text out max_output h fits = elim (Bool-cases (ltb max_output (length text))) [
  | inr short ↦ returned-inj text out (rw short at h)
  | inl long ↦ elim (Bool-cases (is_char_boundary text max_output)) [
    | inr inside ↦ let lost : panicked ≡ returned out = rw (long, inside) at h in cc
    | inl boundary ↦
        let same : take max_output text ++ mark ≡ out =
          returned-inj _ out (rw (long, boundary) at h) in
        let more : length (take max_output text) + 16 ≡ length out =
          sym (length-append (take max_output text) mark) ∙ ap (λ (s : Str). length s) same in
        let full : max_output < length text = ground (arith, long) in
        absurd (omega (arith, more, full, fits, length-take max_output text))
  ]
]

numbered-split :
    (k : ℕ) (ls : List Str)
    → past_end k (length ls) ≡ false
    → numbered 1 ls ≡ numbered 1 (take k ls) ++ numbered (k + 1) (drop k ls)
unfolding numbered
numbered-split k ls within =
    ap (λ (l : List Str). numbered 1 l) (sym (take-append-drop k ls))
    ∙ numbered-append 1 (take k ls) (drop k ls)
    ∙ ap (λ (s : Str). numbered 1 (take k ls) ++ s) (behind (past_end-false k ls within))
  where
    nothing : (n m j : ℕ) → numbered n (drop j []) ≡ numbered m (drop j [])
    nothing n m zero = refl
    nothing n m (suc j) = refl

    behind :
        (k < length ls) ⊎ (ls ≡ [])
        → numbered (1 + length (take k ls)) (drop k ls) ≡ numbered (k + 1) (drop k ls)
    behind (inl before) = ap (λ n. numbered n (drop k ls)) (omega (arith, before, length-take k ls))
    behind (inr empty) = rw empty (nothing _ _ k)

-- Where the whole answer of `read_file` fits into the limit of the output, it is the first `k`
-- lines as one call answers with them, followed by the rest as a call with the offset `k` does.
pub read_file_tiles :
    {D : Type 0} (os : Os D) (root : Root) (path : Str) (k max_output : ℕ) (d : D) (out : Str)
    (rest : Call Str)
    → k < 2 ^ 32
    → read_file os root path none none max_output d ≡ ok (returned out)
    → length out ≤ max_output
    → read_file os root path (some k) none max_output d ≡ ok rest
    → (first behind : Str) × (read_file os root path none (some k) max_output d
        ≡ ok (returned first))
      × (rest ≡ returned behind)
      × (out ≡ first ++ behind)
unfolding read_window
read_file_tiles os root path k max_output d out rest small whole fits after =
    let (reading, same, _) =
      read_file_ok os root path none none max_output d (returned out) (omega arith) (omega arith)
        whole in
    let ls = text_of reading in
    let name = shown root reading.target in
    let windowed =
      sym (read_file-Reading os root path max_output d (some k) none reading) ∙ after in
    elim (Bool-cases (past_end k (length ls))) [
      | inl past ↦ err-ne-ok _ _ (rw past at windowed)
      | inr within ↦
          let first = numbered 1 (take k ls) in
          let behind = numbered (k + 1) (drop k ls) in
          let all : numbered 1 ls ≡ out = truncate-whole _ out max_output (sym same) fits in
          let split : out ≡ first ++ behind = sym all ∙ numbered-split k ls within in
          let sum : length out ≡ length first + length behind =
            ap (λ (s : Str). length s) split ∙ length-append first behind in
          (
            first,
            behind,
            read_file-Reading os root path max_output d none (some k) reading
                ∙ read_window_lem name none (some k) max_output ls (omega arith) small
                    (ground arith)
                ∙ ap (λ (c : Call Str). ok c)
                    (truncate_fits first max_output (omega (arith, sum, fits))),
            ok-inj (
                sym windowed
                ∙ read_window_lem name (some k) none max_output ls small (omega arith) within
                ∙ ap (λ (c : Call Str). ok c)
                    (truncate_fits behind max_output (omega (arith, sum, fits)))),
            split,
          )
    ]
