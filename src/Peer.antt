-- ===== src/Peer.antt =====
-- A client joined to its transport, as `bayeux_client_create` joins them: the transport's callback is
-- `on_batch_recv`, with the client as its context, and the client sends by `transport_send`.
--
-- Both run on one libevent. `on_batch_recv` does not touch the transport, so that it makes no
-- difference whether it runs during the loop of `check_curl_multi` or after it; likewise the call of
-- `transport_send`, with which `on_ev_timeout_flush` ends.
pub mod Request
pub mod Respond
pub mod Close
pub mod System
use libbayeux.Prelude.{ℕ, length, drop, List, [], ◌∷◌, Option, none, some, ◌>>=◌}
use libbayeux.Libc.{CString}
use libbayeux.Json.{JsonC}
use libbayeux.Client.{Client, Effect, called, sent}
use libbayeux.Client.Flush.{on_ev_timeout_flush}
use libbayeux.Client.Receive.{on_batch_recv}
use libbayeux.Transport.Libs.{Curl, Events}
use libbayeux.Transport.LongPolling.{Http, c_string, on_ev_event, on_ev_timer}
use libbayeux.Client.Api.{BayeuxClientOpts, bayeux_client_create}
use libbayeux.Transport.Dispatch.{
  Transport, transport_type_http_long_polling, transport_open, transport_send,
}

pub record Peer (M E T J : Type 0) : Type 0 where
  pub client : Client J T
  pub transport : Transport M E T J

module _ {M K E T J : Type 0} (json : JsonC J) (curl : Curl M K) (ev : Events E T) where
  -- A new client, on a transport that it opens.
  unfoldable pub create_peer : CString → BayeuxClientOpts → E → Option (Peer M E T J)
  unfolding bayeux_client_create transport_open
  create_peer endpoint opts ev_base = do
    transport ← transport_open J curl ev endpoint transport_type_http_long_polling ev_base
    some (record { client = bayeux_client_create J ev.timers endpoint opts; transport = transport })

  -- The calls of `transport_send` among the effects of a step.
  unfoldable pub send_all : Transport M E T J → List Effect → Option (Transport M E T J)
  unfolding transport_send c_string
  send_all transport [] = some transport
  send_all transport (called sub text ∷ effects) = send_all transport effects
  send_all transport (sent body ∷ effects) = do
    msg ← c_string body.buf
    send_all (transport_send curl ev transport msg) effects

  -- The flush timer.
  unfoldable pub flush : Peer M E T J → Option (Peer M E T J)
  unfolding send_all on_ev_timeout_flush
  flush peer = do
    client ← on_ev_timeout_flush json peer.client
    transport ← send_all peer.transport (drop (length peer.client.effects) client.effects)
    some (record { client = client; transport = transport })

  -- The calls of `recv_callback`.
  unfoldable pub receive_all : Client J T → List (Option J) → Option (Client J T)
  unfolding on_batch_recv
  receive_all client [] = some client
  receive_all client (msgs ∷ batches) = do
    client' ← on_batch_recv json ev.timers client msgs
    receive_all client' batches

  -- What the transport has received beyond this many batches goes to the client.
  unfoldable pub deliver : ℕ → Peer M E T J → Http M E T J → Option (Peer M E T J)
  unfolding receive_all
  deliver known peer http = do
    client ← receive_all peer.client (drop known http.received)
    some (record { client = client; transport = record peer.transport { long_polling = http } })

  -- A socket of the transport is ready.
  unfoldable pub socket_ready : ℕ → ℕ → ℕ → Peer M E T J → Option (Peer M E T J)
  unfolding deliver on_ev_event
  socket_ready fuel fd kind peer = do
    http ← on_ev_event curl ev json.tokener_parse fuel fd kind peer.transport.long_polling
    deliver (length peer.transport.long_polling.received) peer http

  -- The transport's timer has expired.
  unfoldable pub timer_expired : ℕ → Peer M E T J → Option (Peer M E T J)
  unfolding deliver on_ev_timer
  timer_expired fuel peer = do
    http ← on_ev_timer curl ev json.tokener_parse fuel peer.transport.long_polling
    deliver (length peer.transport.long_polling.received) peer http

module _ {M E T J : Type 0} where
  -- A call of the application, or a timer that does not send: the transport has no part in it.
  unfoldable pub on_client :
      (Client J T → Option (Client J T)) → Peer M E T J → Option (Peer M E T J)
  on_client call peer = do client ← call peer.client; some (record peer { client = client })
