-- ===== src/FileTools/Read/Window.antt =====
-- src/fs_ops.rs: the lines that `read_file` answers with.
use local_mcp.Common.{
  take_all, take-min, length-drop, ℕ, zero, suc, ◌+◌, ◌-◌, ◌^◌, ◌<◌, ◌≤◌, ◌≡◌, ◌⊎◌, refl, sym, ap,
  subst, ◌∙◌, min, Bool, false, Bool-cases, inl, inr, not, ◌&&◌, Option, none, some, List, [], ◌∷◌,
  ◌==◌, leb, le→leb, length, take, drop, arith,
}
use local_mcp.Common.Str.{Str, lines}
use local_mcp.Common.Utf8.{from_utf8_lossy}
use local_mcp.Common.Result.{ok, map_err, map_err-eq-ok, bind-eq-ok, err-ne-ok, ok-inj}
use local_mcp.FilePath.{PathBuf}
use local_mcp.FilePath.Laws.{IsInside}
use local_mcp.Root.{Root, resolve}
use local_mcp.Root.Resolve.{resolve-IsInside}
use local_mcp.FileTools.{Os, outside, cannot, shown}
use local_mcp.FileTools.Output.{Call, returned, truncate, AtMost, truncate-AtMost}
use local_mcp.FileTools.Read.{
  looks_binary, unwrap_or, end_of, slice, numbered, read_window, read_content, read_file,
}

-- The lines that are asked for.
abbrev pub window {ℓ} : {A : Type ℓ} → ℕ → Option ℕ → List A → List A
window start none xs = drop start xs
window start (some n) xs = take n (drop start xs)

module _ {ℓ} {A : Type ℓ} where
  slice_lem :
      (from to : ℕ) (xs : List A)
      → from ≤ to
      → to ≤ length xs
      → slice from to xs ≡ returned (take (to - from) (drop from xs))
  unfolding slice
  slice_lem from to xs h k = rw (le→leb from to h, le→leb to (length xs) k) refl

  -- The range of `read_file` is within the lines, and no addition goes over.
  slice-window :
      (start : ℕ) (limit : Option ℕ) (xs : List A)
      → start < 2 ^ 32
      → unwrap_or 0 limit < 2 ^ 32
      → start < length xs
      → slice start (end_of start limit (length xs)) xs ≡ returned (window start limit xs)
  slice-window start none xs h k within =
      slice_lem start (length xs) xs (omega (arith, within)) (omega arith)
      ∙ ap returned
          (take_all (length xs - start) (drop start xs) (omega (arith, length-drop start xs)))
  slice-window start (some n) xs h k within =
      let end : end_of start (some n) (length xs) ≡ min (start + n) (length xs) =
        omega (arith, h, k) in
      slice_lem start (end_of start (some n) (length xs)) xs (omega (arith, end, within))
        (omega (arith, end))
      ∙ ap returned
          (take-min _ n (drop start xs) (omega (arith, end, within, length-drop start xs)))

slice_empty {ℓ} :
    {A : Type ℓ} (start : ℕ) (limit : Option ℕ)
    → slice {A = A} (min start 0) (end_of start limit 0) [] ≡ returned (window start limit [])
unfolding slice
slice_empty zero none = refl
slice_empty (suc start) none = ground arith
slice_empty zero (some zero) = refl
slice_empty zero (some (suc n)) = ground arith
slice_empty (suc start) (some zero) = ground arith
slice_empty (suc start) (some (suc n)) = ground arith

-- An offset past the end is refused.
abbrev pub past_end : ℕ → ℕ → Bool
past_end start count = leb count start && not (count == 0)

pub past_end-false :
    (start : ℕ) (ls : List Str)
    → past_end start (length ls) ≡ false
    → (start < length ls) ⊎ (ls ≡ [])
past_end-false start [] h = inr refl
past_end-false start (l ∷ ls) h = inl (ground (arith, h))

whole_slice :
    (start : ℕ) (limit : Option ℕ) (ls : List Str)
    → start < 2 ^ 32
    → unwrap_or 0 limit < 2 ^ 32
    → past_end start (length ls) ≡ false
    → slice (min start (length ls)) (end_of start limit (length ls)) ls
      ≡ returned (window start limit ls)
whole_slice start limit ls h k within = elim (past_end-false start ls within) [
  | inl before ↦
      let same : min start (length ls) ≡ start = omega (arith, before) in
      ap (λ n. slice n (end_of start limit (length ls)) ls) same
      ∙ slice-window start limit ls h k before
  | inr empty ↦ rw empty (slice_empty start limit)
]

pub read_window_lem :
    (shown : Str) (offset limit : Option ℕ) (max_output : ℕ) (ls : List Str)
    → unwrap_or 0 offset < 2 ^ 32
    → unwrap_or 0 limit < 2 ^ 32
    → past_end (unwrap_or 0 offset) (length ls) ≡ false
    → read_window shown offset limit max_output ls
      ≡ ok (
          truncate
            (numbered (unwrap_or 0 offset + 1) (window (unwrap_or 0 offset) limit ls))
            max_output)
unfolding read_window
read_window_lem shown offset limit max_output ls h k within =
    rw (within, whole_slice (unwrap_or 0 offset) limit ls h k within) refl

-- What was read, and from where.
pub record Reading {D : Type 0} (os : Os D) (root : Root) (path : Str) (d : D) : Type 0 where
  pub target : PathBuf
  pub found : resolve (os.fs d) root path ≡ ok target
  pub inside : IsInside root.path target
  pub content : Str
  pub read : os.read d target ≡ ok content
  pub is_text : looks_binary content ≡ false

abbrev pub text_of :
    {D : Type 0} {os : Os D} {root : Root} {path : Str} {d : D} → Reading os root path d → List Str
text_of reading = lines (from_utf8_lossy reading.content)

module _ {D : Type 0} (os : Os D) (root : Root) (path : Str) (max_output : ℕ) (d : D) where
  read_window-ok :
      (offset limit : Option ℕ) (r : Call Str)
      → read_file os root path offset limit max_output d ≡ ok r
      → (reading : Reading os root path d) × (read_window
            (shown root reading.target)
            offset
            limit
            max_output
            (text_of reading)
          ≡ ok r)
  unfolding read_file read_content
  read_window-ok offset limit r h =
      let (target, found, h₁) = bind-eq-ok (map_err outside (resolve (os.fs d) root path)) _ h in
      let (content, read, h₂) = bind-eq-ok (map_err (cannot _ _) (os.read d target)) _ h₁ in
      let resolved = map_err-eq-ok _ _ found in
      elim (Bool-cases (looks_binary content)) [
        | inl lost ↦ err-ne-ok _ _ (rw lost at h₂)
        | inr is_text ↦ (
          record {
            target = target;
            found = resolved;
            inside = resolve-IsInside (os.fs d) root path target resolved;
            content = content;
            read = map_err-eq-ok _ _ read;
            is_text = is_text;
          },
          rw is_text at h₂,
        )
      ]

  pub read_file-Reading :
      (offset limit : Option ℕ) (reading : Reading os root path d)
      → read_file os root path offset limit max_output d
        ≡ read_window (shown root reading.target) offset limit max_output (text_of reading)
  unfolding read_file read_content
  read_file-Reading offset limit reading = rw (reading.found, reading.read, reading.is_text) refl

-- A `read_file` that answers has read a text file inside the root, and answers with the lines from
-- the offset on, as many as the limit allows, each behind its number in the file, cut at the limit
-- of the output: what it returns is longer than that by the mark of a cut at most.
pub read_file_ok :
    {D : Type 0} (os : Os D) (root : Root) (path : Str) (offset limit : Option ℕ) (max_output : ℕ)
    (d : D) (r : Call Str)
    → unwrap_or 0 offset < 2 ^ 32
    → unwrap_or 0 limit < 2 ^ 32
    → read_file os root path offset limit max_output d ≡ ok r
    → (reading : Reading os root path d) × (r
        ≡ truncate
            (numbered
              (unwrap_or 0 offset + 1)
              (window (unwrap_or 0 offset) limit (text_of reading)))
            max_output)
      × AtMost (max_output + 16) r
unfolding read_window
read_file_ok os root path offset limit max_output d r h k answered =
    let (reading, windowed) = read_window-ok os root path max_output d offset limit r answered in
    let ls = text_of reading in
    elim (Bool-cases (past_end (unwrap_or 0 offset) (length ls))) [
      | inl past ↦ err-ne-ok _ _ (rw past at windowed)
      | inr within ↦
          let same : r ≡ truncate _ max_output = sym (
            ok-inj (
              sym
                (read_window_lem (shown root reading.target) offset limit max_output ls h k within)
              ∙ windowed)) in
          (
            reading,
            same,
            subst (AtMost (max_output + 16)) (sym same) (truncate-AtMost _ max_output),
          )
    ]
