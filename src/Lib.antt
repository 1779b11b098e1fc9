-- ===== src/Lib.antt =====
-- A model of a replicated log: a group of nodes agree on a sequence of requests by a Paxos-style
-- protocol with one leader per view, and hand the requests to a user in that order.
--
-- The parts, and the files that model them:
--   Stamp       src/util/common-structure.c: a view stamp is a view and a request number; `vstol`
--               codes it as the 64-bit number that keys the database, `view_stamp_comp` orders
--               stamps.
--   Db          src/db/db-interface.c: records by number over Berkeley DB. The calls of Berkeley DB
--               are the parameter `Bdb`, a record of its operations with the laws its manual gives.
--   Consensus   src/consensus/consensus.c. `Record` has the stored request as bytes and the quorum
--               test, `Message` the messages, `State` the component, `Execute` the delivery of
--               requests, `Build` the message builders, `Submit` new requests, `Handle` the message
--               handlers, `Progress` the leader's timer.
--   Replica     src/replica-sys/replica.c and src/replica-sys/message.c. `Node` is the state of a
--               node and its connections to peers, `View` the change of views and the pings,
--               `Election` with `Election/Roles` the proposer, acceptor and learner, `Edge` the search
--               for open record numbers after an election, `Merge` the answers to an announcement,
--               `Close` the end of an election, `Timeout` the timers that start an election and keep
--               it going, `Dispatch` the bytes of a connection, taken apart and handed on.
--   Proxy       src/proxy/proxy.c, src/include/proxy/proxy.h, src/include/rsm-interface.h. `Message`
--               has the requests and their bytes, `Key` the number of a session, `State` the proxy and
--               its sessions, `Client` what clients send, `Action` what is done with decided records,
--               `Sessions` the connections with clients and the server.
--   Setup       how the program starts: `NodeConfig` is src/config-comp/config-comp.c, `ProxyConfig`
--               src/config-comp/config-proxy.c, `Options` the options in src/main.c, `Start` the start
--               of a node in src/replica-sys/replica.c; `Settings` stands for libconfig.
--   Base        numbers, lists, words, faults; `Framing` takes messages out of a buffer of bytes, as the
--               read callbacks of node and proxy both do.
--   Examples    a database in memory, a small group, a proxy and a configuration, at which the
--               theorems are applied.
-- A function has its name from the code. A function that C runs on pointers to a node or component
-- takes that state and returns the new one; the calls of `uc` and `ucb` are collected in `out` of a
-- component, writes and timers in `effects` of a node. `Outcome` is a result or a fault (a failed
-- assertion, a NULL pointer that is read, an index out of bounds, a loop that never ends).
--
-- A component works over the view and the stamps of its node, which it shares by pointers; these
-- are fields of the component, and the node has them through it. A handler of the node runs the
-- component and sends what it put out. The election module decides on the leader of the next view;
-- `update_view` enters the view and gives the component its role.
--
-- A proxy speaks to its node through bytes and the database. What a client sends becomes a request,
-- whose bytes the node takes from the connection (`replica_on_read`) and submits to the consensus.
-- When the consensus has executed a record, the proxy learns its number, reads the record from the
-- database by it, and does what it says with the server beside it (`do_action_to_server`).
--
-- What a call meets from outside is its argument `Env`: the time, which allocations succeed, and the
-- bytes behind a buffer, so that a read past a buffer has a value that no theorem fixes. Integers are
-- natural numbers with the wrap-around of their words written out. Other libraries are parameters:
-- `Bdb` for Berkeley DB, `Hash` for the tables of uthash, `ConfigFile` for the lookups of libconfig;
-- `Layout` says where a compiler puts the fields of a message.
--
-- A loop over record numbers runs as many rounds as there are numbers from its start to its end, and
-- a loop over an array as many as it has slots. The loop that merges two lists of record numbers,
-- `merge_loop`, has no bound in the code: it is given a turn for each open number and one to see the
-- end, more of which make no difference (`merge_loop_enough`). The loop of a read callback, `read_all`, takes one
-- turn more than there are bytes in its buffer, and each message takes a byte at least
-- (`read_frames_enough`). The loop of the proxy over decided records, `act_up_to`, is given one turn
-- more than there are record numbers up to the last that it knows.
--
-- Not modelled: libevent, sockets, signals and threads, of which only what the code asks for is kept
-- as effects; log files and macros; `initialize_db`, `proxy_init` and `proxy_run`, which open files
-- and listeners, `fake_update_state`, which logs, and `leader_election_finalize`, which nothing
-- calls; uthash; the clients with their copy of the Mongoose server, the scripts and experiments.
pub mod Base
pub mod Stamp
pub mod Db
pub mod Consensus
pub mod Replica
pub mod Proxy
pub mod Setup
pub mod Examples
