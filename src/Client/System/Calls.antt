-- ===== src/Client/System/Calls.antt =====
-- The calls of the application keep a session.
use libbayeux.Prelude.{ℕ, ◌<◌, ◌≡◌, refl, ◌∙◌, List, [], ◌∷◌, ◌++◌, Option, some, length, ◌>>=◌}
use libbayeux.Libc.{CString}
use libbayeux.Json.{JsonC}
use libbayeux.MsgQueue.{MsgQueue, RecvFunc, msg_queue_push}
use libbayeux.MsgQueue.Entries.{Entry}
use libbayeux.MsgQueue.Append.{queued, msg_queue_push-append}
use libbayeux.Client.{Client, Timers, Subscription}
use libbayeux.Client.Schedule.{schedule_flush}
use libbayeux.Client.Messages.{make_publish, make_subscribe, make_unsubscribe}
use libbayeux.Client.Connect.{issue_connect}
use libbayeux.Client.Api.{bayeux_client_publish, bayeux_client_subscribe, bayeux_client_unsubscribe}
use libbayeux.Client.Channels.{channels_subscribe}
use libbayeux.Client.Channels.Table.{Table}
use libbayeux.Client.Channels.Rows.{listeners, subscribed}
use libbayeux.Client.Channels.Registry.{with_channels, channels_subscribe-subscribed}
use libbayeux.Client.Invariant.{connects}
use libbayeux.Client.Invariant.Steps.{SameCore-IsClient, schedule_flush-SameCore, queued-IsClient}
use libbayeux.Client.System.Pending.{IsSession}
use libbayeux.Client.System.Connect.{issue_connect-IsSession}

module _ {J T : Type 0} (json : JsonC J) (ev : Timers T) where
  -- the end of the three calls: the connection, the call's own message, and the timer
  abbrev pub connect_and_send : Client J T → J → RecvFunc → Option (Client J T)
  connect_and_send c msg func = do
    client' ← issue_connect json ev c
    (_, outbox) ← msg_queue_push client'.outbox msg func
    some (schedule_flush ev (record client' { outbox = outbox }))

  connect_and_send_steps :
      (c c1 : Client J T) (msg : J) (func : RecvFunc) (n : ℕ) (outbox : MsgQueue J)
      → issue_connect json ev c ≡ some c1
      → msg_queue_push c1.outbox msg func ≡ some (n, outbox)
      → connect_and_send c msg func ≡ some (schedule_flush ev (record c1 { outbox = outbox }))
  connect_and_send_steps c c1 msg func n outbox connected pushed =
      rw (connected, ◌>>=◌, pushed, ◌>>=◌) refl

  connect_and_send-IsSession :
      (c : Client J T) (es : List (Entry J)) (table : Table) (msg : J) (func : RecvFunc)
      → connects func ≡ 0
      → IsSession c es table
      → (c' : Client J T) × (es' : List (Entry J)) × (connect_and_send c msg func ≡ some c')
        × IsSession c' es' table
  connect_and_send-IsSession c es table msg func plain v =
      let (c1, es1, connected, v1) = issue_connect-IsSession json ev c es table v in
      let (outbox, pushed, q) = msg_queue_push-append c1.outbox es1 msg func v1.client.queue in
      let sender = record c1 { outbox = outbox } in
      (
        schedule_flush ev sender,
        es1 ++ (queued msg func ∷ []),
        connect_and_send_steps c c1 msg func (length es1) outbox connected pushed,
        record {
          client =
              SameCore-IsClient sender (schedule_flush ev sender) (es1 ++ (queued msg func ∷ []))
                table (schedule_flush-SameCore ev sender)
                (queued-IsClient c1 es1 table outbox (queued msg func) v1.client q plain);
        },
      )

  pub publish-IsSession :
      (c : Client J T) (es : List (Entry J)) (table : Table) (channel text : CString)
      → IsSession c es table
      → (c' : Client J T) × (es' : List (Entry J)) × (bayeux_client_publish json ev c channel text
          ≡ some c')
        × IsSession c' es' table
  unfolding bayeux_client_publish
  publish-IsSession c es table channel text v =
      connect_and_send-IsSession c es table (make_publish json channel text) RecvFunc.recv_publish
        refl v

  pub unsubscribe-IsSession :
      (c : Client J T) (es : List (Entry J)) (table : Table) (channel : CString)
      (sub : Subscription)
      → IsSession c es table
      → (c' : Client J T) × (es' : List (Entry J)) × (bayeux_client_unsubscribe json ev c channel
            sub
          ≡ some c')
        × IsSession c' es' table
  unfolding bayeux_client_unsubscribe
  unsubscribe-IsSession c es table channel sub v =
      connect_and_send-IsSession c es table (make_unsubscribe json channel)
        RecvFunc.recv_unsubscribe refl v

  pub subscribe_steps :
      (c c1 : Client J T) (channel : CString) (sub : Subscription)
      → channels_subscribe c channel sub ≡ some c1
      → bayeux_client_subscribe json ev c channel sub
        ≡ connect_and_send c1 (make_subscribe json channel) RecvFunc.recv_subscribe
  unfolding bayeux_client_subscribe
  subscribe_steps c c1 channel sub registered = rw (registered, ◌>>=◌) refl

  pub subscribe-IsSession :
      (c : Client J T) (es : List (Entry J)) (table : Table) (channel : CString)
      (sub : Subscription)
      → IsSession c es table
      → length (listeners channel table) < 16
      → (c' : Client J T) × (es' : List (Entry J)) × (bayeux_client_subscribe json ev c channel sub
          ≡ some c')
        × IsSession c' es' (subscribed channel sub table)
  subscribe-IsSession c es table channel sub v room =
      let (channels, capacity, count, registered, held) =
        channels_subscribe-subscribed c channel sub table v.client.table_held room in
      let c1 = with_channels c channels capacity count in
      let v1 : IsSession c1 es (subscribed channel sub table) = record {
        client = record {
          queue = v.client.queue;
          one_connect = v.client.one_connect;
          message_id = v.client.message_id;
          batch_id = v.client.batch_id;
          table_held = held;
        };
      } in
      let (c2, es2, sent, v2) =
        connect_and_send-IsSession c1 es (subscribed channel sub table)
          (make_subscribe json channel) RecvFunc.recv_subscribe refl v1 in
      (c2, es2, subscribe_steps c c1 channel sub registered ∙ sent, v2)
