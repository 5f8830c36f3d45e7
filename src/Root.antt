-- ===== src/Root.antt =====
-- src/root.rs: the sandbox root that every file tool resolves its paths against. The file system is
-- a parameter: which paths `symlink_metadata` finds, and what `canonicalize` answers.
pub mod Lexical
pub mod Resolve
pub mod Complete
pub mod Symlinks
mod Examples
use local_mcp.Common.{
  ◌≡◌, Bool, true, Option, none, some, List, [], ◌∷◌, ◌++◌, reverse, if◌then◌else◌,
}
use local_mcp.Common.Str.{Str}
use local_mcp.Common.Result.{Result, ok, err, ◌>>=◌, map_err, ok_or}
use local_mcp.FilePath.{
  Component, prefix, root_dir, cur_dir, parent_dir, normal, PathBuf, components, is_absolute, join,
  push, parent, strip_base, starts_with,
}

-- What the source reads of a `std::io::Error`: its kind. The text of another error is opaque.
pub data IoError : Type 0 where
  not_found is_a_directory permission_denied : IoError
  other : Str → IoError

pub data RootError : Type 0 where
  escape : Str → RootError
  io : PathBuf → IoError → RootError

-- The operating system's answers at the time of a call.
pub record Fs : Type 0 where
  -- `path.symlink_metadata().is_ok()`
  pub exists : PathBuf → Bool
  pub canonicalize : PathBuf → Result IoError PathBuf

pub record Root : Type 0 where
  pub path : PathBuf

-- `Root::new`
unfoldable pub new : Fs → PathBuf → Result RootError Root
new fs root = do
  canonical ← map_err (io root) (fs.canonicalize root)
  ok (record { path = canonical })

-- The loop of `lexical` over the components, from what has been pushed so far. `none` is the
-- early return where `out.pop()` fails.
unfoldable pub normalize : PathBuf → List Component → Option PathBuf
normalize out [] = some out
normalize out (prefix s ∷ cs) = normalize (push out (prefix s)) cs
normalize out (root_dir ∷ cs) = normalize (push out root_dir) cs
normalize out (cur_dir ∷ cs) = normalize out cs
normalize out (parent_dir ∷ cs) = elim (parent out) [ none ↦ none | some up ↦ normalize up cs ]
normalize out (normal s ∷ cs) = normalize (push out (normal s)) cs

unfoldable pub lexical : Root → Str → Result RootError PathBuf
lexical root input = do
  let raw = components input
  let joined = if is_absolute raw then raw else join root.path raw
  out ← ok_or (escape input) (normalize [] joined)
  if starts_with out root.path then ok out else err (escape input)

-- The variables of the loop that walks up when it ends.
pub record Walk : Type 0 where
  pub ancestor : PathBuf
  pub trailing : List Str

-- The loop of `resolve` that walks up, on the reversed components, to the deepest path that exists.
-- `trailing` has the names in the order in which they were pushed. `none` is the early return where
-- there is no file name or no parent.
unfoldable pub walk_up : Fs → PathBuf → List Str → Option Walk
walk_up fs [] trailing =
    if fs.exists [] then some (record { ancestor = []; trailing = trailing }) else none
walk_up fs (normal name ∷ up) trailing =
    let rest = walk_up fs up (trailing ++ name ∷ []) in
    if fs.exists (reverse (normal name ∷ up))
    then some (record { ancestor = reverse (normal name ∷ up); trailing = trailing })
    else rest
walk_up fs (c ∷ up) trailing =
    if fs.exists (reverse (c ∷ up))
    then some (record { ancestor = reverse (c ∷ up); trailing = trailing })
    else none

-- `for name in ... { resolved.push(name) }`
unfoldable pub push_all : PathBuf → List Str → PathBuf
push_all resolved [] = resolved
push_all resolved (name ∷ names) = push_all (push resolved (normal name)) names

unfoldable pub resolve : Fs → Root → Str → Result RootError PathBuf
resolve fs root input = do
  lex ← lexical root input
  walked ← ok_or (escape input) (walk_up fs (reverse lex) [])
  resolved ← map_err (io walked.ancestor) (fs.canonicalize walked.ancestor)
  if starts_with resolved root.path
      then ok (push_all resolved (reverse walked.trailing))
      else err (escape input)

-- `path.strip_prefix(&self.root).unwrap_or(path)`
unfoldable pub relativize : Root → PathBuf → PathBuf
relativize root path = elim (strip_base root.path path) [ none ↦ path | some rest ↦ rest ]
