-- ===== src/Client/System.antt =====
-- A client among the events that reach it: the calls of the application, the timers and the batches
-- from the server. `on_batch_send_err` is no event, since no code calls it.
pub mod Pending
pub mod Connect
pub mod Calls
pub mod Flush
pub mod Answer
pub mod Handshake
pub mod Unique
pub mod Batch
pub mod Effects
pub mod Safety
use libbayeux.Prelude.{ℕ, ◌+◌, ◌^◌, ◌<◌, ◌≡◌, List, [], Option, none, some, length}
use libbayeux.Libc.{CString}
use libbayeux.Memory.{load}
use libbayeux.Json.{JsonC, IsArray}
use libbayeux.MsgQueue.Entries.{Entry, IsQueue}
use libbayeux.Client.{Client, Timers, Subscription}
use libbayeux.Client.Receive.{on_batch_recv}
use libbayeux.Client.Flush.{on_ev_timeout_flush}
use libbayeux.Client.Flush.Spec.{outgoing, batch_text}
use libbayeux.Client.Flush.Single.{sent_message}
use libbayeux.Client.Api.{
  BayeuxClientOpts, bayeux_client_create, bayeux_client_publish, bayeux_client_subscribe,
  bayeux_client_unsubscribe, on_ev_timeout_connect, on_ev_timeout_handshake,
}
use libbayeux.Client.Channels.Table.{Table, HasTable}
use libbayeux.Client.Channels.Rows.{listeners}

-- `elapsed` is time that passes: libevent leaves the timers for connect, flush and handshake in any
-- state, so that a timer that has fired need not be pending.
pub data Event (J T : Type 0) : Type 0 where
  publish : CString → CString → Event J T
  subscribe : CString → Subscription → Event J T
  unsubscribe : CString → Subscription → Event J T
  connect_timer : Event J T
  handshake_timer : Event J T
  flush_timer : Event J T
  batch : Option J → Event J T
  elapsed : T → T → T → Event J T

module _ {J T : Type 0} (json : JsonC J) (ev : Timers T) where
  -- What the client does on an event.
  unfoldable pub handle : Event J T → Client J T → Option (Client J T)
  handle (publish channel text) client = bayeux_client_publish json ev client channel text
  handle (subscribe channel sub) client = bayeux_client_subscribe json ev client channel sub
  handle (unsubscribe channel sub) client = bayeux_client_unsubscribe json ev client channel sub
  handle connect_timer client = on_ev_timeout_connect json ev client
  handle handshake_timer client = on_ev_timeout_handshake json ev client
  handle flush_timer client = on_ev_timeout_flush json client
  handle (batch msgs) client = on_batch_recv json ev client msgs
  handle (elapsed connect flush handshake) client = some (record client {
    ev_timeout_connect = connect;
    ev_timeout_flush = flush;
    ev_timeout_handshake = handshake;
  })

module _ {J T : Type 0} (json : JsonC J) where
  -- The body of the next request stays below 2 ^ 32 bytes, and `handshake_msg_index`, if it is set,
  -- names an entry. The code does not see to this: it does not adjust the index when entries move, and
  -- the place that it then names may hold a pointer to a document that is freed.
  abbrev pub FitsFrom : Option ℕ → Client J T → List (Entry J) → Type 0
  FitsFrom none c es =
      length (batch_text (outgoing json c.id c.batch_id c.message_id es)) + 2050 < 2 ^ 32
  FitsFrom (some i) c es =
      (i < length es)
      × ((msg : J)
          → load c.outbox.msgs i ≡ some msg
          → length (json.to_json_string (sent_message json c.id c.message_id msg)) + 2052 < 2 ^ 32)

  -- What is asked of an event: a channel takes sixteen subscriptions, a request has to fit, and a
  -- batch has to be an array: `on_batch_recv` does not test what the parser gives it.
  abbrev pub Admits : Client J T → List (Entry J) → Table → Event J T → Type 0
  Admits c es table (publish channel text) = Unit
  Admits c es table (subscribe channel sub) = length (listeners channel table) < 16
  Admits c es table (unsubscribe channel sub) = Unit
  Admits c es table connect_timer = Unit
  Admits c es table handshake_timer = Unit
  Admits c es table flush_timer = FitsFrom c.handshake_msg_index c es
  Admits c es table (batch msgs) = IsArray json msgs
  Admits c es table (elapsed connect flush handshake) = Unit

module _ {J T : Type 0} (json : JsonC J) (ev : Timers T) where
  -- One event, which the client handles without a fault.
  pub data Step (c : Client J T) : Client J T → Type 0 where
    step :
        (event : Event J T) (es : List (Entry J)) (table : Table) {c' : Client J T}
        → IsQueue c.outbox es
        → HasTable c table
        → Admits json c es table event
        → handle json ev event c ≡ some c'
        → Step c c'

  -- The clients that come from `bayeux_client_create` by events.
  pub data Reach : Client J T → Type 0 where
    start :
        (endpoint : CString) (opts : BayeuxClientOpts)
        → Reach (bayeux_client_create J ev endpoint opts)
    later : {c c' : Client J T} → Reach c → Step c c' → Reach c'
