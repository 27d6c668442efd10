-- ===== src/Lib.antt =====
-- Portus Window is a host of web and media windows that a command line drives: a client sends one
-- request per connection as a line of JSON, and the host answers with one line. This library models
-- the host's core and its protocol, and proves what makes them correct.
--
-- Parts and files:
--   Base and below: shared types and lemmas: tests, lists, results, texts, floats, ordered maps.
--   Protocol and below (portus-window-protocol/src/lib.rs): the requests, responses, windows and
--     limits; Protocol/Frame has encode_frame and decode_frame.
--   Ipc and below (portus-window/src/ipc.rs): read_frame, process_frame and handle_connection.
--   Window and below (portus-window/src/window_core.rs): Window/Registry is WindowRegistry, with
--     Registry/Focus, Pages, Console and Place for its record_, set_ and apply_ methods;
--     Window/Target is resolve_target and resolve_workspace_index; Window/Validate and
--     Window/Bounded are the free functions; Window/Calls is the sequence of calls that the host
--     makes; Window/Invariant says when a registry is well formed, Window/Invariant/Urls what bounds
--     the URLs. Titles of media, descriptions and the texts of console entries have no bound there.
--   Auth and below (portus-window/src/auth_session): Auth/Domain is domain.rs, Auth/Authority is
--     authority.rs: Authority.antt has what clients can ask, Authority/Trusted what only the host
--     does, and events that mix both.
--   Media and below (portus-window/src/media.rs): Media/Ranges is parse_range and cap_range,
--     Media/Serve the responses for one file, Media/Registry the tokens and handle_protocol, the
--     custom scheme of systems other than Linux, Media/Http the loopback server of Linux
--     (handle_http_connection), where the token alone gives access and no window is tested.
--   Workspaces and below (portus-window/src/workspace.rs): WorkspaceCatalog::resolve.
--   Interaction and below (portus-window/src/interaction.rs): Interaction/Validate is
--     validate_request, Interaction.antt execute and bound_result_for_frame.
--   Database and below (portus-window/src/database.rs and database/service.rs): Database/Rows is a
--     row and its columns, Database/Sessions the sessions and the statements on their rows,
--     Database/Config the configuration, Database/Worker is DbWorker and its calls,
--     Database/History its query, Database/Commands DbCommand and the loop that takes them,
--     Database/Service the calls of DatabaseService, Database/Schema how a file is opened.
--   Cli and below (portus-window-cli/src): Cli/Args is what clap makes of the command line,
--     Cli/Paths, Cli/Validate and Cli/Actions are validation.rs, Cli/Sessions, Cli/Windows and
--     Cli/Request are request.rs, Cli/Transport the exchange with the host and the exit code,
--     Cli/Main what the process prints and writes.
--   Tests and below: the theorems at concrete inputs, and runs of the code.
--
-- How they interact: a connection's bytes become a request by read_frame and decode_frame; the
-- request's handler, an argument of handle_connection, works on the registry and the authority,
-- whose functions return the new state beside their result. Cli/Transport/Served puts the command
-- line and handle_connection at the two ends of one stream. The registry's windows are what the
-- database's thread is told of, by the commands of Database/Commands.
--
-- Choices: texts are lists of Unicode scalar values, len counts UTF-8 bytes and length characters;
-- a BTreeMap is the list of its entries in the order of the keys, and so is a HashMap, whose order
-- the program does not use; a float is its bit pattern; the
-- focus counter wraps at 2 ^ 64 as in a release build. Loops are structural: over the bytes that
-- arrive, over the entries of a history, over the identities that the uuid crate draws, over actions.
-- Only bound_result_for_frame has fuel, one more than the number of things it can drop; its theorem
-- shows that this is enough. Parameters stand for code of other packages: serde_json (Json), the
-- url crate's parsers, the time crate's format, Unicode's lowercase mapping, the command handler;
-- what a web view makes of one action is one too.
--
-- In the database, a table is the map of its rows by their primary key, and a statement a function
-- on it. An argument says which statements fail; one that fails changes nothing, and neither does a
-- transaction that is not committed. A row under a key that is there is refused. A timestamp is its
-- distance from the least i64. The clock and the uuids that are drawn come with each command.
--
-- Not modelled: the tauri, X11, Win32, WebKit and GStreamer calls, sockets and the file system, the
-- database's path and permissions, the scripts of an
-- interaction and how it waits, the dispatch of requests (handler.rs), web videos and profiles;
-- clap's parsing of the command line, and Windows' pipes and paths.
pub mod Base
pub mod Cli
pub mod Protocol
pub mod Ipc
pub mod Window
pub mod Auth
pub mod Interaction
pub mod Database
pub mod Media
pub mod Workspaces
pub mod Tests
