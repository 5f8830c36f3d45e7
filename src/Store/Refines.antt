-- ===== src/Store/Refines.antt =====
-- src/store.rs: the methods on the tables do what is said of the maps.
use local_mcp.Common.{Option}
use local_mcp.Common.Str.{Str}
use local_mcp.Common.Eq.{str_Eq, pair_Eq}
use mathlib.Core.Option
use local_mcp.Table
use local_mcp.Table.{IsKeyed}
use local_mcp.Store.Tables.{Tables}
use local_mcp.Store
