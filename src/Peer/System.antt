-- ===== src/Peer/System.antt =====
-- A peer among the events that reach it: what the application calls, and what libevent finds due.
pub mod Sending
pub mod Receiving
pub mod Unique
pub mod Safety
use libbayeux.Prelude.{ℕ, ◌<◌, ◌≡◌, List, [], Option, none, some, length}
use libbayeux.Libc.{CString}
use libbayeux.Json.{JsonC}
use libbayeux.MsgQueue.Entries.{Entry, IsQueue}
use libbayeux.Client.Api.{BayeuxClientOpts}
use libbayeux.Client.Channels.Table.{Table, HasTable}
use libbayeux.Client.System
use libbayeux.Client.System.{Event, handle, FitsFrom}
use libbayeux.Client.System.Pending.{IsSession}
use libbayeux.Transport.Libs.{Curl, CurlMsg, Events}
use libbayeux.Transport.LongPolling.{Http, event_action}
use libbayeux.Transport.Calls.{Bodies, AreConns}
use libbayeux.Transport.Actions.{Acts}
use libbayeux.Peer.Respond.{AreBatches}
use libbayeux.Peer.{Peer, create_peer, flush, socket_ready, timer_expired, on_client}

-- a call of the application, time that passes, or one of the two timers that only call on
abbrev pub IsCall : {J T : Type 0} → Event J T → Type 0
IsCall (Event.publish channel text) = Unit
IsCall (Event.subscribe channel sub) = Unit
IsCall (Event.unsubscribe channel sub) = Unit
IsCall Event.connect_timer = Unit
IsCall Event.handshake_timer = Unit
IsCall Event.flush_timer = ⊥
IsCall (Event.batch msgs) = ⊥
IsCall (Event.elapsed connect flush handshake) = Unit

-- The fuel of an event of the transport is for `check_curl_multi`. `timer_elapsed` is time that passes
-- for the transport's timer.
pub data PeerEvent (J T : Type 0) : Type 0 where
  local : Event J T → PeerEvent J T
  flush_due : PeerEvent J T
  socket_due : ℕ → ℕ → ℕ → PeerEvent J T
  timeout_due : ℕ → PeerEvent J T
  timer_elapsed : T → PeerEvent J T

-- What holds of a peer between two events: of the client, and of the connections.
pub record IsPeer {M E T J : Type 0} (peer : Peer M E T J) (es : List (Entry J)) (table : Table)
    (texts : Bodies) : Type 0 where
  pub session : IsSession peer.client es table
  pub conns : AreConns peer.transport.long_polling.conns texts

module _ {M E T J : Type 0} where
  -- the transport's timer is in this state
  abbrev pub with_timer : T → Peer M E T J → Peer M E T J
  with_timer timer peer = record peer {
    transport = record peer.transport {
      long_polling = record peer.transport.long_polling { ev_timer = timer };
    };
  }

module _ {M K E T J : Type 0} (json : JsonC J) (curl : Curl M K) (ev : Events E T) where
  unfoldable pub handle_peer : PeerEvent J T → Peer M E T J → Option (Peer M E T J)
  handle_peer (local event) peer = on_client (handle json ev.timers event) peer
  handle_peer flush_due peer = flush json curl ev peer
  handle_peer (socket_due fuel fd kind) peer = socket_ready json curl ev fuel fd kind peer
  handle_peer (timeout_due fuel) peer = timer_expired json curl ev fuel peer
  handle_peer (timer_elapsed timer) peer = some (with_timer timer peer)

module _ {M K E T J : Type 0} (json : JsonC J) (curl : Curl M K) (ev : Events E T)
    (waiting : M → List (CurlMsg K)) where
  -- libcurl acts as it should, the bodies of the transfers that are done are arrays of messages, and
  -- the fuel is above their number.
  abbrev pub ActsWithin : ℕ → Http M E T J → Bodies → Option ℕ → ℕ → Type 0
  ActsWithin fuel http texts s mask =
      (msgs : List (CurlMsg K)) × (bodies : List CString) × Acts curl ev waiting http texts s mask
        msgs bodies
      × AreBatches json bodies
      × (length msgs < fuel)

  -- What is asked of an event.
  abbrev pub AdmitsPeer : Peer M E T J → List (Entry J) → Table → Bodies → PeerEvent J T → Type 0
  AdmitsPeer peer es table texts (local event) =
      IsCall event × System.Admits json peer.client es table event
  AdmitsPeer peer es table texts flush_due =
      FitsFrom json peer.client.handshake_msg_index peer.client es
  AdmitsPeer peer es table texts (socket_due fuel fd kind) =
      ActsWithin fuel peer.transport.long_polling texts (some fd) (event_action kind)
  AdmitsPeer peer es table texts (timeout_due fuel) =
      ActsWithin fuel peer.transport.long_polling texts none 0
  AdmitsPeer peer es table texts (timer_elapsed timer) = Unit

  pub data PeerStep (peer : Peer M E T J) : Peer M E T J → Type 0 where
    peer_step :
        (event : PeerEvent J T) (es : List (Entry J)) (table : Table) (texts : Bodies)
        {peer' : Peer M E T J}
        → IsQueue peer.client.outbox es
        → HasTable peer.client table
        → AreConns peer.transport.long_polling.conns texts
        → AdmitsPeer peer es table texts event
        → handle_peer json curl ev event peer ≡ some peer'
        → PeerStep peer peer'

  -- The peers that come from a new one by events.
  pub data PeerReach : Peer M E T J → Type 0 where
    created :
        (endpoint : CString) (opts : BayeuxClientOpts) (ev_base : E) {peer : Peer M E T J}
        → create_peer json curl ev endpoint opts ev_base ≡ some peer
        → PeerReach peer
    stepped : {peer peer' : Peer M E T J} → PeerReach peer → PeerStep peer peer' → PeerReach peer'
