-- ===== src/Lib.antt =====
-- Verification of local-mcp, a server that gives a remote client file tools and a shell inside one
-- directory, behind a bearer token or an OAuth consent screen.
--
-- Parts of the program and where they are modelled:
--  - FilePath: the part of std::path that src/root.rs calls: components, join, parent, starts_with,
--    strip_prefix, on Unix paths.
--  - Root: src/root.rs. `new`, `lexical`, `resolve` and `relativize` are the methods of `Root`. The
--    loop over the components is `normalize`, the loop that walks up is `walk_up`, the loop that
--    pushes the names back is `push_all`. The file system is the record `Fs` of two answers,
--    `symlink_metadata().is_ok()` and `canonicalize()`, at the time of the call.
--  - Table, Store: src/store.rs. Store.Tables has the tables that `Store::open` creates and one
--    function for each SQL statement; Store.Engine runs statements, `lock` and transactions; Store has
--    the methods, under their names. `Db.faults` is a script of which locks, statements, begins and
--    commits fail; a theorem for every `Db` holds wherever the engine fails. Store.Clock has
--    `to_epoch` and `from_epoch`; a `SystemTime` is its nanoseconds since 1970. Store.Spec says what the
--    methods promise in terms of four maps; Store.Refines is about one call, Store.History about calls
--    one after another.
--  - Http, Json: the responses and the JSON values that the handlers build or read.
--  - OAuth: src/oauth.rs. `register`, `authorize_form`, `authorize_submit`, `token` and
--    `validate_client` are the functions of those names; OAuth.Page has `escape` and `consent_page`,
--    OAuth.Metadata the two documents. The constant-time comparison, SHA-256, base64 and the
--    test for a header value are the record `Crypto`; identifiers and times that a handler draws are arguments. `token` reads the clock
--    twice and takes two times.
--  - Auth: src/auth.rs. `guard` takes the rest of the stack as an action on the database.
--  - Sessions: src/sessions.rs. The SDK's handshake and its JSON coding are parameters.
--  - Config: src/config.rs. `from_env` over an environment that is a function from names to values.
--    `parse_u64` is `str::parse` for u64, and for usize on a 64-bit machine.
--  - FileTools: src/fs_ops.rs, over an operating system `Os` given by its calls on a disk. FileTools
--    has `write_file` and `edit_file`; `count_matches` and `replace` are `str::matches` and
--    `str::replace`. FileTools.Output has `truncate`, FileTools.Read `read_file`, FileTools.Walk
--    `list_dir` and `search` with the directory walker and the regular expressions as parameters. A
--    function that may panic answers with a `Call`. Errors are constructors in place of their texts.
--  - Jobs: src/exec_ops.rs. The methods of `Jobs` have their names; `pump_chunk`, `record_exit`, `stamp`
--    and `announce` are the steps of the tasks that `start` spawns. Jobs.Events runs calls of `start`
--    and steps of the tasks in any order. `cells` are all jobs that were made, since the tasks hold them
--    where the table has forgotten them. `done` is the value of a watch channel: `announce` sets it only
--    where the channel has a receiver, and `start` keeps none, so that it is the waits that have them.
--    `wait` takes what happens while it waits and in the 20 ms behind it as steps on the table.
--    Jobs.Effect is what the events make of one job.
--  - Server: src/server.rs. Server.Tools has the handlers under their names and `call_tool`; `World` is
--    the disk, the job table and the signals sent; `Draws` is what a call draws and what other tasks do
--    before and while `execute` waits. The disk is what the server itself makes of it: what a command
--    writes is not part of it. `Sdk` is the SDK's choice of a handler and its listing. Server.Log has
--    `elide`, `arguments` and `detail`, Server.CallLog the lines of `call_tool`.
--  - Service: the router of src/main.rs. A `Request` names a route with its parsed body and what its
--    handler draws; `serve` is the database after it, whatever the answer was. Service.Threads serves
--    requests at the same time: a `Thread` is a request that stands between two methods of the store,
--    `advance_thread` takes it to the next (`token` is `redeem` and then `issue_token`,
--    `authorize_submit` is `validate_client` and then `decide_consent`), and `interleave` runs arrivals
--    steps and restarts of the process in any order. Service.Tools puts the guard in front of
--    `call_tool`.
--  - Startup: `main` of src/main.rs. `start_up` reads the settings, opens the database (Store.Open, with
--    what the file holds as a parameter), sweeps the sessions and binds the listener; `routes` is the
--    table of routes, and `dispatch` is what a request comes to, with the router's matching of paths
--    as a parameter.
--  - Common: strings as UTF-8 bytes, `trim` over all Unicode white space, `lines`, lossy decoding,
--    decimal numbers, signed integers, results.
--
-- How they interact: every handler is an action `Db → Result E A × Db`, so that what was written
-- before a failure stays written, as in the program. The guard asks the store whether a token is
-- valid; the authorization server writes codes and tokens into the same store; main.rs makes the
-- configured token also the consent secret. Behind the guard a tool call resolves every path against
-- the root, and starts, polls and stops jobs in the one table that all sessions share.
--
-- Bounds and termination: all functions recurse on their data, but for the digits of a number, which
-- have one round for each unit of it and one more, more than there are digits. Times are unbounded
-- integers; the 64-bit seconds of the database are `as_i64`, with the wrap-around of `as i64`. The
-- addition of an offset and a limit in `read_file` stops at `usize_max`; both are 32-bit there. The id
-- of a process is below 2^31, as the kernel's are.
--
-- Hypotheses on code outside the repository: `IsConstantTimeEq`, that the comparison of two texts of
-- one length answers whether they are equal; `IsRoundTrip`, that serde_json reads what it has printed;
-- `IsCoherent`, that canonical paths are their own canonical form and that an entry of a directory is
-- there by each name of the directory; `IsRouting`, that the SDK calls only tools that have a route;
-- `IsReadable`, that the text of an id is read as that id.
-- No hypothesis is made on SHA-256, on the walker or on the regular expressions.
--
-- Not modelled: SQLite beyond its statements, the parsing of HTTP requests and forms and of tool
-- arguments, the log but for the lines of `call_tool` and of the sweep, the SDK's sessions in memory, a
-- stop of the process within a method of the store, what commands write to the disk, and changes of the disk by others during one file
-- tool.
pub mod Common
pub mod FilePath
pub mod Root
pub mod Table
pub mod Store
pub mod Json
pub mod Http
pub mod OAuth
pub mod Auth
pub mod Sessions
pub mod Service
pub mod Startup
pub mod Server
pub mod Config
pub mod FileTools
pub mod Jobs
