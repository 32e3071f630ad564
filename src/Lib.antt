-- ===== src/Lib.antt =====
-- A model of Casper Event Sidecar and its JSON-RPC server, with the theorems that make their core correct.
--
-- The sidecar connects to nodes, hands their events on to its own subscribers, and serves JSON-RPC. These
-- parts of its crates are modelled here:
--
-- json_rpc: an HTTP request passes the filters of filters.rs (JsonRpc/Filters.antt: base_filter,
--   handle_body, handle_rejection, route); its body is validated by Request::new (JsonRpc/Request.antt,
--   JsonRpc/Params.antt), dispatched by RequestHandlers::handle_request (JsonRpc/Handlers.antt), and
--   answered by a response (JsonRpc/Response.antt) that may carry an error (JsonRpc/Error.antt). JSON
--   values are JsonRpc/Json.antt; the type of numbers, serde, the limiter of governor and the filters of
--   warp are parameters (JsonNumbers, Serde, Governor, Warp). A handler is a function that may change a
--   world, so that it can be said which requests reach one.
-- types: the events (types/src/sse_data.rs, Types/SseData.antt), and their translation to the format of
--   1.x nodes (types/src/legacy_sse_data, Types/Legacy.antt and its children, one for each file). The leaf
--   types of the casper_types crate are the parameter Casper (Types/Casper.antt).
-- event_sidecar/src/event_stream_server: the server that clients subscribe to. An event is given an id
--   (event_indexer.rs, EventStream/Indexer.antt), broadcast and buffered (event_stream_server.rs and
--   http_server.rs, EventStream/Server.antt), and replayed to a new subscriber (http_server.rs,
--   EventStream/Replay.antt). A subscription is a request (sse_server.rs, EventStream/Subscribe.antt), whose
--   stream joins the replayed and the ongoing events (EventStream/Stream.antt) and filters each of them
--   (EventStream/Outbound.antt). The buffer of the wheelbuf crate and the events of warp are parameters
--   (WheelBuf, Wire).
--
-- event_sidecar/src/lib.rs (handle_single_event): what is done with an event of a node
--   (Handling/Dispatch.antt). The trait of event_handling_service.rs is the record EventHandlingService
--   (Handling/Service.antt), which the service with a database (Handling/Saving.antt) and the one without
--   (Handling/Passing.antt) fill. The trait DatabaseWriter (database.rs in event_sidecar/src/types) is a
--   record, which the writer of event_sidecar/src/database/writer_generator.rs fills (Handling/Writer.antt),
--   with the rows and the primary keys of event_sidecar/src/sql/tables; the database, its transactions and
--   the JSON are the parameters Sql and Encoding. The order of versions is an argument of store_version
--   (api_version_manager.rs, Handling/Version.antt). What a service sends is the list of what was sent.
--
-- rpc_sidecar/src/node_client.rs: the client of a node's binary port. A request is encoded with an id, and
--   the response checked against it (NodeClient/Port.antt); a connection is made with a growing wait between
--   the attempts (NodeClient/Connect.antt); a request is sent, outdated responses are passed over, and after
--   an error the connection is made again and the request sent once more (NodeClient/Client.antt). The start
--   of the client and a turn of each of its loops in the background are NodeClient/Start.antt. The codes that
--   a node reports become errors (NodeClient/Code.antt, Transaction.antt, Error.antt, FromCode.antt). The
--   methods of the trait are NodeClient/Methods.antt and Methods/Info.antt, over any way to send a request, in
--   the monad of NodeClient/Call.antt. caching_node_client.rs is NodeClient/Caching.antt. The crates
--   casper_binary_port and casper_types are the parameters BinaryPort, PayloadEntity, PortTypes and Codes;
--   sockets, timers, timeouts and counters are the parameter Network, over a world that each call may change.
--
-- rpc_sidecar/src/rpcs: what the JSON-RPC methods share, and some of them. The codes (error_code.rs) are
--   Rpcs/Code.antt, the errors and what a client is told of them (error.rs) Rpcs/Error.antt, the requests
--   that several methods make (common.rs) Rpcs/Common.antt. The methods of chain.rs and account.rs are
--   Rpcs/Chain.antt and Rpcs/Account.antt. They run over the record NodeClient (Rpcs/Client.antt), which
--   `default_client` fills with the methods of NodeClient/Methods.antt. Values of casper_types are the
--   parameters ErrorTypes and ValueTypes.
--
-- listener/src: one connection to a node, with its handshake and the events that it passes on
--   (connection_manager.rs, Listener/Manager.antt), and the tasks of connections that wait for one another
--   (connection_tasks.rs, Listener/Tasks.antt), where each step is one access to what they share, but for
--   the flag that `register_success` reads and the notification after it, which are one step, and a
--   relation has every interleaving. The stream, the channels and the reading of JSON are the parameter Environment.
--
-- Asynchronous code is modelled by what it yields: a stream is the list of its items, a channel the list
-- of what it delivers, and one turn of a loop is a function on the variables of the loop. Numbers of 32
-- and 64 bits are native numbers with the wrap-around or the bound written out; amounts of 512 bits are
-- not bounded, but for the sums of rewards, which panic. Recursion is structural, and needs no fuel, but for the attempts to connect, whose loop is
-- given one round more than the attempts allowed, which is enough (NodeClient/Connect/Laws.antt).
--
-- Not modelled: logging, response times, how databases are read and migrated, the REST
-- server, the loop of reconnections to a node, the RPC methods of state.rs, info.rs
-- and speculative_exec.rs, and the start-up of the program.
--
-- Prelude.antt passes on the names of the libraries with the Boolean tests, results, integers and texts
-- that all parts share. The theorems on a file stand in its Laws module or next to it, and those at
-- concrete inputs in the modules called Tests.
pub mod Prelude
pub mod JsonRpc
pub mod Types
pub mod EventStream
pub mod Handling
pub mod NodeClient
pub mod Listener
pub mod Rpcs
