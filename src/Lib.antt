-- ===== src/Lib.antt =====
-- OwlNest, a peer-to-peer node over libp2p: the protocols that it implements itself, and its
-- in-memory stores.
--
-- The program is a swarm of libp2p with a set of protocols. A protocol of the repository has a
-- behaviour, one for the node, and a handler for each connection. The front end pushes requests to
-- the behaviour; when it is polled, the behaviour passes them to the handler of a peer; a handler
-- turns them into messages on a stream, and the messages that come in into events for its
-- behaviour, which changes its tables and reports to the front end. Here each of these machines is a
-- record with one function for each operation, and theorems are on runs of one machine or on two
-- machines that exchange messages.
--
-- Base: the tests, lists, sets and tables that all parts share. A HashMap is an association list with
-- the laws of its lookups, and walks over a HashMap go through its bindings in an order left open.
--
-- Blob: protocols/owlnest-blob, the transfer of files.
--   Blob/Types: the events, errors and configuration (src/lib.rs, error.rs, config.rs) and a World, the
--     answers of the clock, the file system, paths and callbacks to one call; a call may end well,
--     panic, or never return.
--   Blob/State, Send, Recv, Behaviour: the behaviour of src/behaviour.rs. Send and Recv hold the
--     operations on the two directions (send_file, pending_send_accepted, progress_ongoing_send,
--     on_new_pending_recv, accept_pending_recv, progress_ongoing_recv, the cancellations and
--     removals), Behaviour holds push_event, check_expiry, on_disconnect, on_connection_handler_event
--     and poll, and runs of them.
--   Blob/Front: the handle of owlnest/src/net/p2p/protocols/blob.rs (send_file, recv_file, cancel_send,
--     cancel_recv) with the behaviour's part of each call and the file system as a parameter. Sends, Recvs
--     and Cancels are about these calls, Listing about the table of sends on the command line.
--   Blob/Cases: what each operation does, by its branches, for the proofs to use.
--   Blob/Invariant, Cancel, Disconnect, Expiry, Panics, Transfer: the theorems on the behaviour.
--   Blob/Wire, Handler: the messages and the handler of src/handler.rs (encode and progress_outbound,
--     decode and on_message, poll_inbound, poll_outbound, poll, on_connection_event), and below
--     Handler its theorems.
--
-- Messaging: protocols/owlnest-messaging, text messages. Messaging models src/behaviour.rs, and
--   Messaging/Handler src/handler.rs; Requests, Handler/Callbacks and Handler/Runs follow the callback of
--   each request, and Peers the set of connected peers.
--
-- Advertise: protocols/owlnest-advertise, lists of peers that a provider advertises. Advertise models
--   src/behaviour.rs with the events of src/lib.rs; Requests says what requests and polls leave alone,
--   Capacity how many peers are advertised, and Queries which queries are answered. Handler models
--   src/handler.rs; below it Delivery follows its requests to the peer and Retries failed negotiations.
--   Front models query_advertised_peer and remove_advertised of
--   owlnest/src/net/p2p/protocols/advertise.rs, which wait for the behaviour's events, while inputs
--   of any kind come to the behaviour; News and Owing say what the behaviour owes to a query,
--   Answers, Unconnected and Removal what the callers get.
--
-- Hyper: protocols/owlnest-hyper, HTTP over the streams of a connection. Hyper models src/handler.rs,
--   with one function for each part of the loop in poll; Turns bounds the loop, and Requests and Runs follow
--   the requests of the behaviour.
--
-- Memcache: memcache/src/store.rs and manager.rs, a map and a set that a task owns and serves to
--   clients over a channel. MapSpec says what the map promises and SetCount what the set does.
--
-- Framing: messages on a stream. Framing holds streams and what both protocols use, Framing/Blob models
--   owlnest-blob/src/protocol.rs (send, recv, cursor_read), Framing/Universal the universal protocol of
--   owlnest-prelude/src/lib.rs, which the handlers of messaging and advertise send through. Numbers,
--   Reading, Writing and CutShort are about bytes of numbers, the loops and streams that end early;
--   Exchange composes the handlers of blob with their streams.
--
-- Gossip: owlnest/src/net/p2p/protocols/gossipsub.rs. Gossip models the two stores, TopicSpec says what
--   the store of topics promises, and below it Runs shows it. Handle models the requests of the handle,
--   map_in_event and what a method does with its answer, as steps of a node; Subscriptions compares the
--   store with the swarm, in runs whose calls do not overlap (Serial) and in one where they do (Race).
--
-- Swarm: owlnest/src/net/p2p/swarm. Swarm and Convert are about the events of out_event.rs, EventLoop
--   about the guard of the loop in mod.rs. Operations models swarm_op_exec of event_handlers.rs;
--   Adapters models map_in_event of
--   owlnest/src/net/p2p/protocols/mdns.rs and autonat.rs. Node puts the behaviours together: the channels of
--   owlnest-proc/src/lib.rs (RxBundle), handle_incoming_event and handle_swarm_event. There the swarm of
--   libp2p holds the behaviours and may change them in any of its methods. Channels is about the order of
--   requests, Routes about the routing table. Messaging/Front and History are the front end of messaging, its store and the task that listens to the
--   swarm's events for it; Kad with Queries is the handle of owlnest/src/net/p2p/protocols/kad.rs, which
--   finds its results among the same events, and Kad/Routing its map_in_event, set_mode and swarm_hooks.
--
-- Select: owlnest-macro. Behaviours models the network behaviour that behaviour_select.rs generates out of
--   those of the protocols, and Handlers the connection handler of connection_handler_select.rs, both over
--   any list of protocols. Steps and Runs compare the runs of the whole with those of its parts, Admission
--   is about connections that come in, Streams about the streams that handlers ask for.
--
-- The Examples modules run the definitions at concrete inputs and hold an instance of each of the
-- results listed below.
--
-- Bounds: counters, sizes and times are 64-bit with wrap-around, as in a build without overflow
-- checks; the differences of times in check_expiry wrap too. Peers, callbacks, files and streams are
-- numbers, since the code only compares and passes them. No definition has fuel: the loops of the code
-- are recursions on the answers that the outside world gives, on a queue, or on the bytes that are
-- left; the loops over write are given the list of what is taken each time, and when it runs out the
-- call does not return.
--
-- Left out: futures, timers and streams are represented by what polling them answers, or by what they
-- will deliver; prost, serde_json, xxh3, regex, the file system and libp2p (its swarm and its kad, mdns,
-- autonat and gossipsub behaviours) are arguments with the laws that the code relies on. The macros'
-- negotiation of protocols, the behaviour of hyper, the construction of the swarm, the other protocols of
-- libp2p in owlnest/src/net/p2p/protocols, the methods of handles that only pass a request on, the command
-- line and the HTTP server are not modelled. Log lines, spans and the texts of errors are left out or
-- shortened.
pub mod Advertise
pub mod Base
pub mod Blob
pub mod Framing
pub mod Gossip
pub mod Hyper
pub mod Kad
pub mod Memcache
pub mod Messaging
pub mod Select
pub mod Swarm
