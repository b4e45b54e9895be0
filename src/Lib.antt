-- ===== src/Lib.antt =====
-- A model of libbayeux, a client of the Bayeux protocol (publish and subscribe over HTTP) in C.
--
-- A client (src/bayeux.c, `BayeuxClient`) keeps the messages that it has to send in an outbox, four
-- arrays side by side. The exported calls put messages into the outbox and set a timer. When the
-- timer fires, the client writes the messages that are not in flight into a string buffer
-- (src/str.c) as one JSON array and hands it to the transport. The answer of the server comes back
-- as a batch of messages: each is an event, which goes to the callbacks of its channel, or an answer
-- to a message of the outbox, found by its id, which is then taken out. Messages are documents of
-- json-c, read and written through src/json_util.c.
--
-- Which file models what:
--   Str, Str/*              src/str.c: `Str` is the block behind the pointer
--   Json                    json-c, as an interface with laws; Json/Table is an instance for tests
--   Json/Util               src/json_util.c
--   MsgQueue, MsgQueue/*    src/bayeux.c: `MsgQueue` and the functions msg_queue_*; the loop of
--                           `on_batch_send_err`
--   Client                  src/bayeux.c: the state, and libevent's timers as an interface
--   Client/Schedule, Ids    next_batch_id, next_message_id, schedule_connect, schedule_flush
--   Client/Messages         json_get_msg_id, json_set_msg_id and the functions make_*
--   Client/Channels         channels_subscribe, channel_deliver
--   Client/Connect          handle_advice, issue_handshake, issue_connect
--   Client/Receive          the functions recv_*, on_msg_recv, on_batch_recv, on_batch_send_err
--   Client/Flush            msg_queue_flush, msg_queue_flush_one, on_ev_timeout_flush
--   Client/Api              the exported functions and the two other timers
--   Client/Invariant        the invariant of a client, and the steps that keep it
--   Client/System           the client among the events that reach it: calls, timers, batches, and
--                           time that passes, which leaves the timers in any state
--   Transport               src/transport_http_long_polling.c: `ConnInfo` and on_curl_write
--   Transport/Libs          libcurl and libevent's events, as interfaces with laws
--   Transport/LongPolling   src/transport_http_long_polling.c: the sockets, the timer, the requests
--   Transport/Dispatch      src/transport.c, and the creation of a transport
--   Transport/Close         transport_close, and the release of the long-polling transport
--   Transport/*             their proofs: Write, Sockets, Complete, Response; Calls and Interleave
--                           for libcurl's calls in any order; Actions for a whole action
--   Peer                    a client joined to its transport: src/bayeux.c 876-883, the call of
--                           transport_send, and the callback that the transport calls
--   Peer/Request, Respond   from the flush timer to libcurl, and from the bytes of the responses to
--                           the client
--   Peer/Close              bayeux_client_destroy, bayeux_client_get_event_base
--   Peer/System             the peer among the events that reach it
--   Log                     src/log.c
--   PingPong, PingPong/*    samples/pingpong/pingpong.c: its messages, its events, the whole run
--   Memory, Libc            arrays in memory and the functions on strings of the C library
--   Prelude                 shared names, tests, lists, masks and C's division
--   Tests                   concrete inputs
--
-- How the code is translated. A function that changes the client takes it and returns it. `none` is
-- undefined behaviour: an access outside an array, or of a cell that was never written. An array is
-- a list of cells, each `none` until it is written. Native ℕ stands for the unsigned types, with
-- `% 2 ^ 32` written out where the code can wrap, and for `int` counts, which are never negative and
-- stay far below 2 ^ 31; other `int`s are ℤ. A value of -1 or null is `none`. A loop over an index is
-- recursion on the number of rounds that are left, which the code fixes before the loop, so that no
-- fuel is needed. What the client asks of the outside, a callback or a call of `transport_send`, is
-- appended to the list `effects`.
--
-- A client and its transport (Peer) run on one libevent, one event at a time. The sample's loop is the
-- list of its events, with whether the signal ended it; what it prints is a list of lines.
--
-- The loop of `check_curl_multi` has no such number, and runs on fuel; more fuel than there are
-- messages is enough. libcurl's calls back into the transport are a list that its action returns, in
-- the order in which it makes them; `curl_multi_add_handle` may call the timer's callback once.
--
-- A document is a value and not a pointer. For the documents of the outbox this makes a difference
-- behind the count only: after a removal, the last place that was in use still has a pointer there,
-- to a document that is freed or that an entry has too. The model gives this place up, so that a use
-- of it is undefined. `handshake_msg_index` can come to name such a place, since nothing adjusts it
-- when entries move; where the flush timer is said not to fault, the index is asked to name an entry.
-- Likewise a batch is asked to be an array, because `on_batch_recv` takes the length of what the
-- parser gives, a null pointer for a body that is no JSON.
--
-- Assumed of other code: the laws of json-c in `Json.Laws`, those of libcurl and of libevent's events
-- in `Transport.Libs`, and for the advice of the server those of libevent's timers in
-- `Client.TimerLaws`. The allocator is an argument of the calls of src/str.c that allocate; the other
-- files test no allocation, and their allocations are taken to succeed.
--
-- Not modelled: the reference counts of json-c, but for the place that a removal gives up; which
-- blocks and events are given back, but for the client's timers and for what a release leaves
-- behind; the calls of `log_info`, with `check_curl_mcode`, which only print; a
-- callback that calls the client back while `channel_deliver` runs.
pub mod Prelude
pub mod Memory
pub mod Libc
pub mod Log
pub mod Json
pub mod Str
pub mod MsgQueue
pub mod Client
pub mod Transport
pub mod Peer
pub mod PingPong
pub mod Tests
