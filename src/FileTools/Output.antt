-- ===== src/FileTools/Output.antt =====
-- src/fs_ops.rs: `truncate`, and a call that may panic.
use local_mcp.Common.{
  ℕ, ◌+◌, ◌≤◌, ◌≡◌, subst, Bool-cases, inl, inr, ◌++◌, ltb, length, take, length-append,
  length-take, arith, if◌then◌else◌,
}
use local_mcp.Common.Str.{Str, bytes}
use local_mcp.Common.Utf8.{is_char_boundary}

-- What a call comes to: it returns, or the thread panics.
pub data Call {ℓ} (A : Type ℓ) : Type ℓ where
  returned : A → Call A
  panicked : Call A

abbrev pub then_call {ℓ κ} : {A : Type ℓ} {B : Type κ} → Call A → (A → Call B) → Call B
then_call (returned a) f = f a
then_call panicked f = panicked

abbrev pub mark : Str
mark = bytes "\n... [truncated]"

-- `String::truncate` panics inside a character.
unfoldable pub truncate : Str → ℕ → Call Str
truncate text max_output =
    if ltb max_output (length text)
    then (if is_char_boundary text max_output
        then returned (take max_output text ++ mark)
        else panicked)
    else returned text

abbrev pub AtMost : ℕ → Call Str → Type 0
AtMost n c = (out : Str) → c ≡ returned out → length out ≤ n

pub returned-inj : (s t : Str) → returned s ≡ returned t → s ≡ t
returned-inj s t h = ground arith

-- What `truncate` returns is longer than the limit by the mark at most.
pub truncate-AtMost :
    (text : Str) (max_output : ℕ) → AtMost (max_output + 16) (truncate text max_output)
unfolding truncate
truncate-AtMost text max_output out h = elim (Bool-cases (ltb max_output (length text))) [
  | inr short ↦
      let same : text ≡ out = returned-inj text out (rw short at h) in
      let bound : length text ≤ max_output = ground (arith, short) in
      subst (λ (s : Str). length s ≤ max_output + 16) same (omega (arith, bound))
  | inl long ↦ elim (Bool-cases (is_char_boundary text max_output)) [
    | inr inside ↦ let lost : panicked ≡ returned out = rw (long, inside) at h in cc
    | inl boundary ↦
        let same : take max_output text ++ mark ≡ out =
          returned-inj _ out (rw (long, boundary) at h) in
        subst (λ (s : Str). length s ≤ max_output + 16) same
          (omega (arith, length-append (take max_output text) mark, length-take max_output text))
  ]
]
