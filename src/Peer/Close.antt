-- ===== src/Peer/Close.antt =====
-- src/bayeux.c: `bayeux_client_destroy` and `bayeux_client_get_event_base`.
use libbayeux.Prelude.{
  false, ◌==◌, Bool-cases, inl, inr, ◌≡◌, refl, List, [], ◌∷◌, Option, none, some, if◌then◌else◌,
  ◌>>=◌, ==_iff,
}
use libbayeux.Memory.{Block}
use libbayeux.MsgQueue.{MsgQueue, msg_queue_destroy}
use libbayeux.Client.{Channel}
use libbayeux.Transport.Libs.{Curl, CurlMsg, CurlLaws, Events}
use libbayeux.Transport.LongPolling.{Http, called_back}
use libbayeux.Transport.Dispatch.{Transport, transport_type_http_long_polling}
use libbayeux.Transport.Calls.{Bodies, AreConns, after_calls}
use libbayeux.Transport.Interleave.{AreCalls, called_back-AreConns}
use libbayeux.Transport.Close.{Remains, transport_http_long_polling_destroy, transport_close}
use libbayeux.Peer.{Peer}

-- What is left of a client: the base, if the client did not make it, and what nothing frees. The
-- timers of the client are those that `event_free` gives back, in its order: it deletes them first.
pub record Left (M E T J : Type 0) : Type 0 where
  pub transport : Remains M E T
  pub timers : List T
  pub ev_base : Option E
  pub outbox : MsgQueue J
  pub channels : Block Channel

module _ {M K E T J : Type 0} (curl : Curl M K) (ev : Events E T) where
  -- the timers of a client, when `event_free` has deleted them
  abbrev pub freed_timers : Peer M E T J → List T
  freed_timers peer =
      ev.evtimer_del peer.client.ev_timeout_handshake
      ∷ ev.evtimer_del peer.client.ev_timeout_flush
      ∷ ev.evtimer_del peer.client.ev_timeout_connect
      ∷ []

  -- The blocks of the endpoint and of the client itself are given back at the end.
  unfoldable pub destroy_peer : Peer M E T J → Option (Left M E T J)
  unfolding transport_close msg_queue_destroy
  destroy_peer peer = do
    remains ← transport_close curl ev peer.transport
    some (record {
      transport = remains;
      timers = freed_timers peer;
      ev_base = if peer.client.owns_ev_base then none else some remains.ev_base;
      outbox = msg_queue_destroy J peer.client.outbox;
      channels = peer.client.channels;
    })

  -- Of a null pointer nothing is left.
  unfoldable pub bayeux_client_destroy : Option (Peer M E T J) → Option (Option (Left M E T J))
  unfolding destroy_peer
  bayeux_client_destroy none = some none
  bayeux_client_destroy (some peer) = do left ← destroy_peer peer; some (some left)

module _ {M E T J : Type 0} where
  -- The client and its transport have the same base.
  unfoldable pub bayeux_client_get_event_base : Peer M E T J → E
  bayeux_client_get_event_base peer = peer.transport.long_polling.ev_base

module _ {M K E T J : Type 0} (curl : Curl M K) (ev : Events E T) where
  -- what is left of a transport whose sockets are closed
  abbrev remains_of : Http M E T J → Remains M E T
  remains_of closed = record {
    curl_multi = closed.curl_multi;
    ev_base = closed.ev_base;
    ev_timer = ev.evtimer_del closed.ev_timer;
    conns = closed.conns;
    sockets = closed.sockets;
  }

  -- the transport when libcurl has cleaned up, before its calls
  abbrev pub cleaned : Http M E T J → Http M E T J
  cleaned http = record http { curl_multi = (curl.multi_cleanup http.curl_multi).1 }

  close_steps :
      (t : Transport M E T J) (closed : Http M E T J)
      → t.type_tag ≡ transport_type_http_long_polling
      → called_back curl ev
          (cleaned t.long_polling)
          (curl.multi_cleanup t.long_polling.curl_multi).0
        ≡ some closed
      → transport_close curl ev t ≡ some (remains_of closed)
  unfolding transport_close transport_http_long_polling_destroy
  close_steps t closed polling ran =
      rw ((==_iff t.type_tag transport_type_http_long_polling).1 polling, ran, ◌>>=◌) refl

  -- what is left of a client
  abbrev pub left_of : Peer M E T J → Http M E T J → Left M E T J
  left_of peer closed = record {
    transport = remains_of closed;
    timers = freed_timers curl ev peer;
    ev_base = if peer.client.owns_ev_base then none else some closed.ev_base;
    outbox = msg_queue_destroy J peer.client.outbox;
    channels = peer.client.channels;
  }

  destroy_steps :
      (peer : Peer M E T J) (closed : Http M E T J)
      → transport_close curl ev peer.transport ≡ some (remains_of closed)
      → bayeux_client_destroy curl ev (some peer) ≡ some (some (left_of peer closed))
  unfolding bayeux_client_destroy destroy_peer
  destroy_steps peer closed ran = rw (ran, ◌>>=◌, ◌>>=◌) refl

  -- A client on a long-polling transport, with a libcurl that keeps its laws and whose calls at
  -- `curl_multi_cleanup` are as `AreCalls` says: `bayeux_client_destroy` does not fault. It frees no
  -- connection: each transfer that was not finished keeps the text that came for it. It frees no
  -- channel either, and leaves the base alone if the client did not make it.
  pub bayeux_client_destroy-AreConns :
      (waiting : M → List (CurlMsg K))
      → CurlLaws curl waiting
      → (peer : Peer M E T J) (texts : Bodies)
      → peer.transport.type_tag ≡ transport_type_http_long_polling
      → AreConns peer.transport.long_polling.conns texts
      → AreCalls curl ev
          (cleaned peer.transport.long_polling)
          texts
          (curl.multi_cleanup peer.transport.long_polling.curl_multi).0
      → (left : Left M E T J) × (bayeux_client_destroy curl ev (some peer) ≡ some (some left))
        × AreConns left.transport.conns
            (after_calls texts (curl.multi_cleanup peer.transport.long_polling.curl_multi).0)
        × (left.channels ≡ peer.client.channels)
        × (left.ev_base ≡ (if peer.client.owns_ev_base then none else some left.transport.ev_base))
  bayeux_client_destroy-AreConns waiting laws peer texts polling v calls =
      let (closed, ran, conns, _) =
        called_back-AreConns curl ev waiting laws (cleaned peer.transport.long_polling) texts
          (curl.multi_cleanup peer.transport.long_polling.curl_multi).0 v calls in
      (
        left_of peer closed,
        destroy_steps peer closed (close_steps peer.transport closed polling ran),
        conns,
        refl,
        refl,
      )

  close_other :
      (t : Transport M E T J)
      → (t.type_tag == transport_type_http_long_polling) ≡ false
      → (remains : Remains M E T) × (transport_close curl ev t ≡ some remains)
  unfolding transport_close
  close_other t other =
      let http = t.long_polling in
      (
        record {
          curl_multi = http.curl_multi;
          ev_base = http.ev_base;
          ev_timer = http.ev_timer;
          conns = http.conns;
          sockets = http.sockets;
        },
        rw other refl,
      )

  destroyed :
      (peer : Peer M E T J) (remains : Remains M E T)
      → transport_close curl ev peer.transport ≡ some remains
      → (left : Left M E T J) × (bayeux_client_destroy curl ev (some peer) ≡ some (some left))
  unfolding bayeux_client_destroy destroy_peer
  destroyed peer remains ran = (
    record {
      transport = remains;
      timers = freed_timers curl ev peer;
      ev_base = if peer.client.owns_ev_base then none else some remains.ev_base;
      outbox = msg_queue_destroy J peer.client.outbox;
      channels = peer.client.channels;
    },
    rw (ran, ◌>>=◌, ◌>>=◌) refl,
  )

  -- Of whatever type the transport is, a client is released without a fault.
  pub bayeux_client_destroy-total :
      (waiting : M → List (CurlMsg K))
      → CurlLaws curl waiting
      → (peer : Peer M E T J) (texts : Bodies) → AreConns peer.transport.long_polling.conns texts
      → AreCalls curl ev
          (cleaned peer.transport.long_polling)
          texts
          (curl.multi_cleanup peer.transport.long_polling.curl_multi).0
      → (left : Left M E T J) × (bayeux_client_destroy curl ev (some peer) ≡ some (some left))
  bayeux_client_destroy-total waiting laws peer texts v calls =
      elim (Bool-cases (peer.transport.type_tag == transport_type_http_long_polling)) [
        | inl polling ↦
            let (left, ran, _, _, _) =
              bayeux_client_destroy-AreConns waiting laws peer texts
                ((==_iff peer.transport.type_tag transport_type_http_long_polling).0 polling) v
                calls in
            (left, ran)
        | inr other ↦
            let (remains, ran) = close_other peer.transport other in destroyed peer remains ran
      ]
