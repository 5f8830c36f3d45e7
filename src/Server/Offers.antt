-- ===== src/Server/Offers.antt =====
-- src/server.rs: which tools an instance lists.
use local_mcp.Common.{
  ℕ, ◌≡◌, refl, sym, ap, ◌∙◌, Bool, true, false, ◌&&◌, ◌||◌, not, inl, inr, Option, some, none,
  List, [], ◌∷◌, arith, Bool-cases, if◌then◌else◌,
}
use local_mcp.Common.Str.{Str, str_eq, str_eq_iff}
use local_mcp.Config.{Config}
use local_mcp.Server.{
  exec_tools, all_tools, offers, remove_route, remove_routes, new, Sdk, ListToolsResult, list_tools,
  cache_hints, CacheScope,
}

-- Of two names that differ at most one is a third.
names_differ :
    (route other name : Str)
    → str_eq route other ≡ false
    → str_eq route name ≡ true
    → str_eq other name ≡ false
names_differ route other name differ is = elim (Bool-cases (str_eq other name)) [
  | inr is_not ↦ is_not
  | inl also ↦
      let same : route ≡ other =
        (str_eq_iff route name).0 is ∙ sym ((str_eq_iff other name).0 also) in
      let clash : true ≡ false = sym ((str_eq_iff route other).1 same) ∙ differ in cc
]

offers-remove_route :
    (name other : Str) (routes : List Str)
    → offers (remove_route other routes) name ≡ (not (str_eq other name) && offers routes name)
unfolding offers remove_route
offers-remove_route name other [] = ground arith
offers-remove_route name other (route ∷ routes) =
    let rest = offers-remove_route name other routes in
    elim (Bool-cases (str_eq route other)) [
      | inl same ↦
          let alike : str_eq route name ≡ str_eq other name =
            ap (λ (r : Str). str_eq r name) ((str_eq_iff route other).0 same) in
          rw same (rest ∙ gone (str_eq route name) (str_eq other name) _ alike)
      | inr differ ↦ rw differ (
          ap (λ b. str_eq route name || b) rest
          ∙ kept (str_eq route name) (str_eq other name) _
              (λ is. names_differ route other name differ is))
    ]
  where
    gone : (r o x : Bool) → r ≡ o → (not o && x) ≡ (not o && (r || x))
    gone r o x e = ground arith

    kept : (r o x : Bool) → (r ≡ true → o ≡ false) → (r || not o && x) ≡ (not o && (r || x))
    kept true o x h = rw (h refl) refl
    kept false o x h = refl

offers-remove_routes :
    (name : Str) (names routes : List Str)
    → offers (remove_routes names routes) name ≡ (not (offers names name) && offers routes name)
unfolding remove_routes offers
offers-remove_routes name [] routes = refl
offers-remove_routes name (other ∷ names) routes =
    offers-remove_routes name names (remove_route other routes)
    ∙ ap (λ b. not (offers names name) && b) (offers-remove_route name other routes)
    ∙ both (offers names name) (str_eq other name) (offers routes name)
  where
    both : (n o x : Bool) → (not n && (not o && x)) ≡ (not (o || n) && x)
    both n o x = ground arith

-- A tool is listed exactly if it is one of the nine, and none of the four that run commands where
-- `allow_exec` is off.
pub list_tools-new :
    {Addr Raw Version : Type 0} (sdk : Sdk Raw) (at_least : Version → Version → Bool)
    (v_2026_07_28 : Version) (config : Config Addr) (version : Option Version) (name : Str)
    → ((routes : List Str) → offers (sdk.list_all routes) name ≡ offers routes name)
    → offers (list_tools sdk at_least v_2026_07_28 (new config) version).tools name
      ≡ (offers all_tools name && (config.allow_exec || not (offers exec_tools name)))
unfolding list_tools new
list_tools-new sdk at_least v_2026_07_28 config version name lists =
    by_hints (cache_hints at_least v_2026_07_28 version) ∙ lists _ ∙ by_config config.allow_exec
  where
    by_hints :
        (hints : Option (ℕ × CacheScope))
        → offers
            (elim hints as (λ _. ListToolsResult) [
              | some (ttl_ms, scope) ↦ record {
                tools = sdk.list_all (new config).tool_router;
                ttl_ms = some ttl_ms;
                cache_scope = some scope;
              }
              | none ↦ record {
                tools = sdk.list_all (new config).tool_router;
                ttl_ms = none;
                cache_scope = none;
              }
            ]).tools
            name
          ≡ offers (sdk.list_all (new config).tool_router) name
    by_hints (some (ttl_ms, scope)) = refl
    by_hints none = refl

    by_config :
        (b : Bool)
        → offers (if not b then remove_routes exec_tools all_tools else all_tools) name
          ≡ (offers all_tools name && (b || not (offers exec_tools name)))
    by_config true = ground arith
    by_config false = offers-remove_routes name exec_tools all_tools ∙ ground arith
