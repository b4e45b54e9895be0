-- ===== src/Client/Api.antt =====
-- src/bayeux.c: the exported functions, and the timer callbacks that only call on.
use libbayeux.Prelude.{Bool, false, not, [], Option, none, some, ◌>>=◌}
use libbayeux.Prelude.Int.{ℤ, pos}
use libbayeux.Libc.{CString}
use libbayeux.Json.{JsonC}
use libbayeux.MsgQueue.{RecvFunc, msg_queue_push, msg_queue_create}
use libbayeux.Client.{Client, Timers, Subscription, reconnect_retry, unconnected}
use libbayeux.Client.Schedule.{schedule_flush}
use libbayeux.Client.Messages.{make_publish, make_subscribe, make_unsubscribe}
use libbayeux.Client.Channels.{channels_subscribe}
use libbayeux.Client.Connect.{issue_connect, issue_handshake}

-- `BayeuxClientOpts`; of `ev_base` only whether it is null
pub record BayeuxClientOpts : Type 0 where
  pub interval_ms : ℤ
  pub timeout_ms : ℤ
  pub has_ev_base : Bool
  pub log_messages : ℤ

unfoldable pub bayeux_client_opts_defaults : BayeuxClientOpts
bayeux_client_opts_defaults = record {
  interval_ms = pos 5000;
  timeout_ms = pos 60000;
  has_ev_base = false;
  log_messages = pos 0;
}

module _ {T : Type 0} (J : Type 0) (ev : Timers T) where
  unfoldable pub bayeux_client_create : CString → BayeuxClientOpts → Client J T
  bayeux_client_create endpoint opts = record {
    advice = record {
      reconnect = reconnect_retry;
      interval_ms = opts.interval_ms;
      timeout_ms = opts.timeout_ms;
    };
    endpoint = endpoint;
    id = none;
    batch_id = 0;
    message_id = 0;
    state = unconnected;
    ev_timeout_connect = ev.evtimer_new;
    ev_timeout_flush = ev.evtimer_new;
    ev_timeout_handshake = ev.evtimer_new;
    owns_ev_base = not opts.has_ev_base;
    channels = [];
    channel_capacity = 0;
    channel_count = 0;
    outbox = msg_queue_create J;
    handshake_msg_index = none;
    connect_msg_in_flight = false;
    effects = [];
  }

module _ {J T : Type 0} (json : JsonC J) (ev : Timers T) where
  unfoldable pub bayeux_client_publish : Client J T → CString → CString → Option (Client J T)
  bayeux_client_publish client channel text = do
    client' ← issue_connect json ev client
    (_, outbox) ←
        msg_queue_push client'.outbox (make_publish json channel text) RecvFunc.recv_publish
    some (schedule_flush ev (record client' { outbox = outbox }))

  unfoldable pub bayeux_client_subscribe : Client J T → CString → Subscription → Option (Client J T)
  bayeux_client_subscribe client channel sub = do
    registered ← channels_subscribe client channel sub
    client' ← issue_connect json ev registered
    (_, outbox) ←
        msg_queue_push client'.outbox (make_subscribe json channel) RecvFunc.recv_subscribe
    some (schedule_flush ev (record client' { outbox = outbox }))

  -- The callback stays registered.
  unfoldable pub bayeux_client_unsubscribe :
      Client J T → CString → Subscription → Option (Client J T)
  bayeux_client_unsubscribe client channel sub = do
    client' ← issue_connect json ev client
    (_, outbox) ←
        msg_queue_push client'.outbox (make_unsubscribe json channel) RecvFunc.recv_unsubscribe
    some (schedule_flush ev (record client' { outbox = outbox }))

  unfoldable pub on_ev_timeout_connect : Client J T → Option (Client J T)
  on_ev_timeout_connect client = issue_connect json ev client

  unfoldable pub on_ev_timeout_handshake : Client J T → Option (Client J T)
  on_ev_timeout_handshake client = issue_handshake json ev client
