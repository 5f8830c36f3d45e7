-- ===== src/Store/History.antt =====
-- src/store.rs: the methods one after another, against the maps.
use local_mcp.Common.{List, [], ◌∷◌}
use local_mcp.Common.Str.{Str}
use local_mcp.Common.Eq.{str_Eq}
use local_mcp.Common.Result.{Result}
use local_mcp.Table
use local_mcp.Store.Tables.{Tables}
use local_mcp.Store.Engine.{Db}
use local_mcp.Store
use local_mcp.Store.Calls.{Call, run}
use local_mcp.Store.Spec.{View, Answer, view, spec, observe}

-- What a history of calls answers, and the maps at its end.
unfoldable pub observe_all : List Call → Db → List Answer × View
observe_all [] db = ([], view db.tables)
observe_all (c ∷ calls) db =
    let (answers, v) = observe_all calls (run c db) in ((observe c db).0 ∷ answers, v)

abbrev pub spec_all : List Call → View → List Answer × View
spec_all [] v = ([], v)
spec_all (c ∷ calls) v =
    let (answer, w) = spec c v in let (answers, end) = spec_all calls w in (answer ∷ answers, end)
