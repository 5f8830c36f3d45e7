-- ===== src/Config/Checked.antt =====
-- src/config.rs: what `from_env` has checked of a configuration that it returns.
use local_mcp.Common.{
  ◌≤◌, ◌≡◌, refl, sym, subst, ◌∙◌, true, false, Bool-cases, inl, inr, Option, none, some, List, [],
  ◌∷◌, All, length, arith,
}
use local_mcp.Common.Str.{Str, bytes, is_empty, trim}
use local_mcp.Common.Result.{ok, ok_or, map_err, bind-eq-ok, map_err-eq-ok, err-ne-ok, ok-inj}
use local_mcp.FilePath.{PathBuf, starts_with}
use local_mcp.FilePath.Laws.{IsInside, starts_with_of_IsInside}
use local_mcp.Root.{Fs, Root, RootError}
use local_mcp.Root
use local_mcp.Config.{
  Config, Env, unless_blank, var, non_empty, hosts_of, checked_token, checked_state_db, from_env,
  exec_allowed, number_or, keep_alive,
}

non_empty-All : (hosts : List Str) → All (λ h. is_empty h ≡ false) (non_empty hosts)
unfolding non_empty
non_empty-All [] = tt
non_empty-All (h ∷ hosts) = elim (Bool-cases (is_empty h)) [
  | inl blank ↦ rw blank (non_empty-All hosts)
  | inr full ↦ rw full (full, non_empty-All hosts)
]

hosts_of-All : (o : Option Str) → All (λ h. is_empty h ≡ false) (hosts_of o)
unfolding hosts_of
hosts_of-All none = tt
hosts_of-All (some v) = non_empty-All _

checked_token_ok :
    (o : Option Str) (t : Str) → checked_token o ≡ ok t → (o ≡ some t) × (16 ≤ length t)
unfolding checked_token
checked_token_ok none t h = cc
checked_token_ok (some s) t h = ground arith

var_ok :
    (env : Env) (key v : Str)
    → var env key ≡ some v
    → (env key ≡ some v) × (is_empty (trim v) ≡ false)
unfolding var
var_ok env key v h = shown (env key) h
  where
    shown : (o : Option Str) → unless_blank o ≡ some v → (o ≡ some v) × (is_empty (trim v) ≡ false)
    shown none h = cc
    shown (some w) h = ground (arith, h)

state_db_ok :
    (root : Root) (p q : PathBuf)
    → checked_state_db root p ≡ ok q
    → (q ≡ p) × (¬ IsInside root.path q)
unfolding checked_state_db
state_db_ok root p q h = elim (Bool-cases (starts_with p root.path)) [
  | inl inside ↦ err-ne-ok _ _ (rw inside at h)
  | inr outside ↦
      let same : ok p ≡ ok q = rw outside at h in
      let e : p ≡ q = ground (arith, same) in
      (
        sym e,
        λ inside.
            let yes : starts_with p root.path ≡ true =
              rw e (starts_with_of_IsInside root.path q inside) in
            let clash : true ≡ false = sym yes ∙ outside in cc,
      )
]

-- What is checked of a configuration. The token is the environment's, not blank, and has at least 16
-- bytes: fewer characters may make them. The path of the state database, as it is written, does not
-- begin with the root: a path that is relative, has `..` or leads through a link is not looked through.
-- The root is an answer of `canonicalize`, no allowed host is empty, and commands are off only by one
-- of the three words.
pub record IsChecked {Addr : Type 0} (fs : Fs) (env : Env) (config : Config Addr) : Type 0 where
  pub token_set : env (bytes "LOCAL_MCP_TOKEN") ≡ some config.token
  pub token_shown : is_empty (trim config.token) ≡ false
  pub token_long : 16 ≤ length config.token
  pub db_outside : ¬ IsInside config.root.path config.state_db
  pub root_canonical : (p : PathBuf) × (fs.canonicalize p ≡ ok config.root.path)
  pub hosts_shown : All (λ h. is_empty h ≡ false) config.allowed_hosts
  pub exec : config.allow_exec ≡ exec_allowed (var env (bytes "LOCAL_MCP_ALLOW_EXEC"))

new_ok :
    (fs : Fs) (p : PathBuf) (root : Root)
    → Root.new fs p ≡ ok root
    → fs.canonicalize p ≡ ok root.path
unfolding Root.new
new_ok fs p root h =
    let (c, found, made) = bind-eq-ok (map_err (Root.io p) (fs.canonicalize p)) _ h in
    map_err-eq-ok _ _ found ∙ ground (arith, made)

module _ {Addr : Type 0} (fs : Fs) (parse_addr : Str → Option Addr) (env : Env) where
  -- A configuration that the environment gives has passed every check: its token is the environment's,
  -- not blank, of at least 16 bytes; the path of its state database, as it is written, does not begin
  -- with the root, which is an answer of `canonicalize`; no allowed host is empty; and commands are
  -- allowed unless the variable says otherwise by one of the three words.
  pub from_env-IsChecked :
      (config : Config Addr) → from_env fs parse_addr env ≡ ok config → IsChecked fs env config
  unfolding from_env
  from_env-IsChecked config h =
      let (root, made_root, h₁) = bind-eq-ok (map_err _ (Root.new fs _)) _ h in
      let (token, made_token, h₂) = bind-eq-ok (checked_token _) _ h₁ in
      let (addr, made_addr, h₃) = bind-eq-ok (ok_or _ (parse_addr _)) _ h₂ in
      let (db, made_db, h₄) = bind-eq-ok (checked_state_db root _) _ h₃ in
      let (n₁, made₁, h₅) = bind-eq-ok (number_or _ _ _) _ h₄ in
      let (n₂, made₂, h₆) = bind-eq-ok (number_or _ _ _) _ h₅ in
      let (n₃, made₃, h₇) = bind-eq-ok (number_or _ _ _) _ h₆ in
      let (n₄, made₄, h₈) = bind-eq-ok (number_or _ _ _) _ h₇ in
      let (k, made_k, h₉) = bind-eq-ok (keep_alive _) _ h₈ in
      let (set, long) = checked_token_ok _ token made_token in
      let (there, shown) = var_ok env (bytes "LOCAL_MCP_TOKEN") token set in
      let (same, outside) = state_db_ok root _ db made_db in
      subst (IsChecked fs env) (ok-inj h₉) (record {
        token_set = there;
        token_shown = shown;
        token_long = long;
        db_outside = outside;
        root_canonical = (_, new_ok fs _ root (map_err-eq-ok _ _ made_root));
        hosts_shown = hosts_of-All (var env (bytes "LOCAL_MCP_ALLOWED_HOSTS"));
        exec = refl;
      })
