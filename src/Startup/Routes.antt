-- ===== src/Startup/Routes.antt =====
-- src/main.rs: what stands behind the guard, and what is offered.
use local_mcp.Common.{◌≡◌, ◌≢◌, refl, Bool, true, false, Option, none, some, List, [], ◌∷◌, All}
use local_mcp.Common.Str.{Str}
use local_mcp.OAuth.{OAuth}
use local_mcp.Service.{Settings, offered}
use local_mcp.Startup.{
  Method, get, head, post, other_method, Endpoint, mcp_service, healthz, Route, oauth_routes,
  routes, Dispatched, reaches, choose, handle, dispatch,
}

abbrev is_mcp : Endpoint → Bool
is_mcp mcp_service = true
is_mcp _ = false

-- The endpoints that are there without OAuth.
abbrev is_basic : Endpoint → Bool
is_basic mcp_service = true
is_basic healthz = true
is_basic _ = false

-- What a route leads to is behind the guard exactly if it is the MCP endpoint, and an endpoint of the
-- authorization server is there only where OAuth is offered.
abbrev pub Proper : Option OAuth → Dispatched → Type 0
Proper o (reaches guarded e) = (guarded ≡ is_mcp e) × (is_basic e ≡ false → o ≢ none)
Proper o d = Unit {0}

first-Proper :
    (o : Option OAuth) (b : Bool) (here later : Dispatched)
    → Proper o here
    → Proper o later
    → Proper o (elim b [ true ↦ here | false ↦ later ])
first-Proper o true here later p q = p
first-Proper o false here later p q = q

dispatch-Proper :
    (o : Option OAuth) (matches : Route → Str → Bool) (m : Method) (path : Str) (rs : List Route)
    → All (λ r. Proper o (handle m r)) rs
    → Proper o (dispatch matches m path rs)
unfolding dispatch
dispatch-Proper o matches m path [] h = tt
dispatch-Proper o matches m path (r ∷ rs) (p, h) =
    first-Proper o (matches r path) (handle m r) (dispatch matches m path rs) p
      (dispatch-Proper o matches m path rs h)

oauth_routes-Proper :
    (o : Option OAuth) (m : Method) → All (λ r. Proper o (handle m r)) (oauth_routes o)
oauth_routes-Proper none m = tt
oauth_routes-Proper (some oauth) get =
    ((refl, some_offered), ((refl, some_offered), (tt, ((refl, some_offered), (tt, tt)))))
  where
    some_offered : {b : Bool} → b ≡ false → some oauth ≢ none
    some_offered e h = cc
oauth_routes-Proper (some oauth) head =
    ((refl, some_offered), ((refl, some_offered), (tt, ((refl, some_offered), (tt, tt)))))
  where
    some_offered : {b : Bool} → b ≡ false → some oauth ≢ none
    some_offered e h = cc
oauth_routes-Proper (some oauth) post =
    (tt, (tt, ((refl, some_offered), ((refl, some_offered), ((refl, some_offered), tt)))))
  where
    some_offered : {b : Bool} → b ≡ false → some oauth ≢ none
    some_offered e h = cc
oauth_routes-Proper (some oauth) (other_method s) = (tt, (tt, (tt, (tt, (tt, tt)))))

-- Whatever paths the router takes a route for: what a request reaches is behind the guard exactly if
-- it is the MCP endpoint, and an endpoint of the authorization server is reached only where a public
-- URL is configured.
pub dispatch-routes :
    (config : Settings) (matches : Route → Str → Bool) (m : Method) (path : Str)
    → Proper (offered config) (dispatch matches m path (routes (offered config)))
unfolding routes
dispatch-routes config matches m path =
    dispatch-Proper (offered config) matches m path (routes (offered config))
      (((refl, λ e. cc), (basic m, oauth_routes-Proper (offered config) m)))
  where
    basic : (m : Method) → Proper (offered config) (choose false m ((get, healthz) ∷ []))
    basic get = (refl, λ e. cc)
    basic head = (refl, λ e. cc)
    basic post = tt
    basic (other_method s) = tt
