-- ===== src/Client/System/Effects.antt =====
-- The callbacks that an event of the client calls.
use libbayeux.Prelude.{
  ◌≡◌, ap, sym, ◌∙◌, true, List, [], ◌∷◌, some, arith, ◌>>=◌, >>=-eq-some, subst,
}
use libbayeux.Libc.{CString}
use libbayeux.Json.{JsonC, Laws}
use libbayeux.MsgQueue.{RecvFunc, msg_queue_push}
use libbayeux.MsgQueue.Entries.{Entry}
use libbayeux.Client.{Client, Timers, Subscription, sent, connecting}
use libbayeux.Client.Schedule.{schedule_flush}
use libbayeux.Client.Messages.{
  make_handshake, make_connect, make_publish, make_subscribe, make_unsubscribe,
}
use libbayeux.Client.Connect.{
  send_handshake, issue_handshake, send_connect, connect_once, issue_connect,
}
use libbayeux.Client.Api.{
  on_ev_timeout_connect, on_ev_timeout_handshake, bayeux_client_publish, bayeux_client_subscribe,
  bayeux_client_unsubscribe,
}
use libbayeux.Client.Channels.Table.{Table}
use libbayeux.Client.Channels.Heard.{Heard, Heard-same}
use libbayeux.Client.Channels.Registry.{with_channels, channels_subscribe-subscribed}
use libbayeux.Client.System.{
  Event, publish, subscribe, unsubscribe, connect_timer, handshake_timer, flush_timer, batch,
  elapsed, handle, Admits,
}
use libbayeux.Client.System.Pending.{IsSession}
use libbayeux.Client.System.Batch.{on_batch_recv-IsSession}
use libbayeux.Client.System.Calls.{connect_and_send, subscribe_steps}
use libbayeux.Client.System.Flush.{flush-IsSession}

module _ {J T : Type 0} (json : JsonC J) (ev : Timers T) where
  schedule_flush-effects : (c : Client J T) → (schedule_flush ev c).effects ≡ c.effects
  unfolding schedule_flush
  schedule_flush-effects c = ground arith

  -- Queued and announced: nothing is called.
  pushed-effects :
      (c : Client J T) (msg : J) (func : RecvFunc) (c' : Client J T)
      → (msg_queue_push c.outbox msg func >>= λ r.
          some (schedule_flush ev (record c { outbox = r.1 })))
        ≡ some c'
      → c'.effects ≡ c.effects
  pushed-effects c msg func c' ran =
      let ((n, outbox), _, last) = >>=-eq-some (msg_queue_push c.outbox msg func) _ ran in
      let same : schedule_flush ev (record c { outbox = outbox }) ≡ c' = cc in
      ap (λ (d : Client J T). d.effects) (sym same)
      ∙ schedule_flush-effects (record c { outbox = outbox })

  send_handshake-effects :
      (c c' : Client J T) → send_handshake json ev c ≡ some c' → c'.effects ≡ c.effects
  unfolding send_handshake
  send_handshake-effects c c' ran =
      let ((n, outbox), _, last) =
        >>=-eq-some (msg_queue_push c.outbox (make_handshake json) RecvFunc.recv_handshake) _ ran in
      let sender = record c { state = connecting; outbox = outbox; handshake_msg_index = some n } in
      let same : schedule_flush ev sender ≡ c' = cc in
      ap (λ (d : Client J T). d.effects) (sym same) ∙ schedule_flush-effects sender

  issue_handshake-effects :
      (c c' : Client J T) → issue_handshake json ev c ≡ some c' → c'.effects ≡ c.effects
  unfolding issue_handshake
  issue_handshake-effects c c' ran = ground (arith, send_handshake-effects c c')

  send_connect-effects :
      (c c' : Client J T) → send_connect json ev c ≡ some c' → c'.effects ≡ c.effects
  unfolding send_connect
  send_connect-effects c c' ran =
      let ((n, outbox), _, last) =
        >>=-eq-some (msg_queue_push c.outbox (make_connect json) RecvFunc.recv_connect) _ ran in
      let sender = record c { connect_msg_in_flight = true; outbox = outbox } in
      let same : schedule_flush ev sender ≡ c' = cc in
      ap (λ (d : Client J T). d.effects) (sym same) ∙ schedule_flush-effects sender

  connect_once-effects :
      (c c' : Client J T) → connect_once json ev c ≡ some c' → c'.effects ≡ c.effects
  unfolding connect_once
  connect_once-effects c c' ran = ground (arith, send_connect-effects c c')

  issue_connect-effects :
      (c c' : Client J T) → issue_connect json ev c ≡ some c' → c'.effects ≡ c.effects
  unfolding issue_connect
  issue_connect-effects c c' ran =
      let (c1, first, second) = >>=-eq-some (issue_handshake json ev c) _ ran in
      connect_once-effects c1 c' second ∙ issue_handshake-effects c c1 first

  connect_and_send-effects :
      (c c' : Client J T) (msg : J) (func : RecvFunc)
      → connect_and_send json ev c msg func ≡ some c'
      → c'.effects ≡ c.effects
  connect_and_send-effects c c' msg func ran =
      let (c1, first, second) = >>=-eq-some (issue_connect json ev c) _ ran in
      pushed-effects c1 msg func c' second ∙ issue_connect-effects c c1 first

  publish-effects :
      (c c' : Client J T) (channel text : CString)
      → bayeux_client_publish json ev c channel text ≡ some c'
      → c'.effects ≡ c.effects
  unfolding bayeux_client_publish
  publish-effects c c' channel text ran =
      connect_and_send-effects c c' (make_publish json channel text) RecvFunc.recv_publish ran

  unsubscribe-effects :
      (c c' : Client J T) (channel : CString) (sub : Subscription)
      → bayeux_client_unsubscribe json ev c channel sub ≡ some c'
      → c'.effects ≡ c.effects
  unfolding bayeux_client_unsubscribe
  unsubscribe-effects c c' channel sub ran =
      connect_and_send-effects c c' (make_unsubscribe json channel) RecvFunc.recv_unsubscribe ran

  subscribe-effects :
      (c c' : Client J T) (es : List (Entry J)) (table : Table) (channel : CString)
      (sub : Subscription)
      → IsSession c es table
      → Admits json c es table (subscribe channel sub)
      → bayeux_client_subscribe json ev c channel sub ≡ some c'
      → c'.effects ≡ c.effects
  subscribe-effects c c' es table channel sub v room ran =
      let (channels, capacity, count, registered, _) =
        channels_subscribe-subscribed c channel sub table v.client.table_held room in
      let c1 = with_channels c channels capacity count in
      connect_and_send-effects c1 c' (make_subscribe json channel) RecvFunc.recv_subscribe
        (sym (subscribe_steps json ev c c1 channel sub registered) ∙ ran)

  -- One event of a client between two events, with the laws of json-c and what `Admits` asks: it
  -- takes nothing from the effects, and each callback that it calls is registered in the table of
  -- channels.
  pub handle-Heard :
      Laws json
      → (event : Event J T) (c c' : Client J T) (es : List (Entry J)) (table : Table)
      → IsSession c es table
      → Admits json c es table event
      → handle json ev event c ≡ some c'
      → Heard table c c'
  unfolding handle on_ev_timeout_connect on_ev_timeout_handshake
  handle-Heard laws (publish channel text) c c' es table v ok ran =
      Heard-same table c c' (publish-effects c c' channel text ran)
  handle-Heard laws (subscribe channel sub) c c' es table v ok ran =
      Heard-same table c c' (subscribe-effects c c' es table channel sub v ok ran)
  handle-Heard laws (unsubscribe channel sub) c c' es table v ok ran =
      Heard-same table c c' (unsubscribe-effects c c' channel sub ran)
  handle-Heard laws connect_timer c c' es table v ok ran =
      Heard-same table c c' (issue_connect-effects c c' ran)
  handle-Heard laws handshake_timer c c' es table v ok ran =
      Heard-same table c c' (issue_handshake-effects c c' ran)
  handle-Heard laws flush_timer c c' es table v ok ran =
      let (d, _, flushed, _, body, _, effects, _) = flush-IsSession json laws c es table v ok in
      let same : d ≡ c' = cc in subst (Heard table c) same (sent body ∷ [], effects, (tt, tt))
  handle-Heard laws (batch msgs) c c' es table v ok ran =
      let (d, _, handled, _, heard) = on_batch_recv-IsSession json ev c msgs es table v ok in
      let same : d ≡ c' = cc in subst (Heard table c) same heard
  handle-Heard laws (elapsed connect flush handshake) c c' es table v ok ran =
      let same : record c {
        ev_timeout_connect = connect;
        ev_timeout_flush = flush;
        ev_timeout_handshake = handshake;
      }
          ≡ c' =
        cc in
      Heard-same table c c' (ap (λ (d : Client J T). d.effects) (sym same))
