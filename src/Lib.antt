-- ===== src/Lib.antt =====
-- DrutaDB, an in-memory key-value server that speaks the Redis protocol, with a memory limit,
-- publish and subscribe, and an append-only file.
--
-- The server reads packets, runs each client's parser over them, and hands every complete command
-- to `handle_command`, which calls one handler. The handlers work on a global index from keys to
-- nodes; the nodes form a doubly linked list in the order of their last use, from which the oldest
-- ones are evicted when the account of memory exceeds the limit. Commands that changed the data
-- are appended to a file, which is replayed at the start and rewritten from the data when it has
-- grown.
--
-- Parser and its children model `RespParser` of src/parser_resp.hpp and src/parser_resp.cpp: its
-- fields are the record's fields, `parse_and_execute` is the loop over the bytes of a packet, and
-- `step` is one round. The handler is a parameter, since the parser reaches it only by its call.
-- An exception that nothing catches is the fault `uncaught`. Resp has the functions that write the
-- protocol: `resp_bulk_string`, and `format_resp_command` of src/aof.cpp.
--
-- Hash and its children model `DrutaHash` of src/drutahash.hpp and src/drutahash.cpp, with its two
-- representations, the conversion between them and the account of memory. The account reads
-- `capacity()` of strings, so the strings of a hash carry their capacity; Text.Storage has what
-- GCC's library does to it on a 64-bit machine. Ordered has `std::map` and `std::set` as sorted
-- lists.
--
-- Value and Store model src/store.hpp: `DrutaValue` with its constructors, `DrutaNode`, and the
-- globals as one record that the functions pass on. Nodes live at addresses in a partial function,
-- so that an access to a node that has been destroyed is the fault `dangling`. Lru and its
-- children model src/lru.hpp and src/lru.cpp with every function of it. `Shape s xs` says that the
-- nodes, the index and the list of the state `s` agree and are those of the entries `xs`, from the
-- least to the most recently used one; `Holds s xs` says that the state is in order, which is the
-- same with an exact account. `Consistent s`, in Lru.Consistent, is the first with sound values,
-- as Value.Sound has them: it does not ask for the account, which a hash can put off.
--
-- Commands models the handlers of src/commands.cpp in children for strings, lists, hashes and
-- sets, each a function from the arguments to the reply, the flag `success` and the next state.
-- The children named Keeps take each handler through `Consistent`, and those named Reads through
-- its answer, from a `Readable` database: one of which every list is shorter than 2^31 and every
-- reply that reserves its memory from an account fits a string. PubSub models src/client.hpp and
-- src/pubsub.cpp; what is sent is a list of texts with their receivers. Aof models src/aof.cpp,
-- where the file is the text written to it; Aof.Rewrite compares the rewritten file with the list
-- of entries. Server models `handle_command`, `replay_aof` and the events of the loop in
-- src/main.cpp. Server.Persistence composes the rewrite, the parser and the handlers in a restart
-- of the server, and Server.Subscriptions follows the clients and channels over runs of events,
-- Server.Handlers and Server.Data the database, with a restart from what the program comes to,
-- Server.Answers the requests that change no data, and Server.Loop puts the events into the rounds
-- of the loop, each with its call of `flush_aof`.
--
-- Numbers: a `size_t` is a natural number modulo 2^64, an `int` and a `long long` are integers
-- with their bounds written out, and signed overflow is the fault `overflow`. The eviction loop
-- and the walk of `rewrite_aof` are recursions on fuel, one round for each node of `lru_size` and
-- one to end, which is enough where the list has as many nodes as `lru_size` says.
--
-- Not modelled: sockets, epoll, of whose calls the events of a round are parameters, and the
-- standard output; the file's path and failures of the file system; the clock, which is a
-- parameter and stands still during a command. Addresses of nodes are not reused. Commands and
-- files of 2 GiB or more are out of the model's reach: `format_resp_command` adds up its estimate,
-- and `replay_aof` and the loop hand over the length of the text, in an `int`, and the model
-- writes and reads the whole text. The memory of a reply is checked where a handler reserves it
-- from an account, in HGETALL and SMEMBERS, which can be wrong; elsewhere a string is taken to
-- fit.
pub mod Prelude
pub mod Text
pub mod Resp
pub mod Ordered
pub mod Parser
pub mod Hash
pub mod Value
pub mod Store
pub mod Lru
pub mod Commands
pub mod PubSub
pub mod Aof
pub mod Server
