-- ===== src/Client/System/Safety.antt =====
-- Every client that events lead to is a session, and handles the next event without a fault.
use libbayeux.Prelude.{◌≡◌, refl, subst, List, [], some}
use libbayeux.Libc.{CString}
use libbayeux.Json.{JsonC, Laws}
use libbayeux.MsgQueue.Entries.{Entry, IsQueue}
use libbayeux.Client.{Client, Timers}
use libbayeux.Client.Api.{
  BayeuxClientOpts, bayeux_client_create, on_ev_timeout_connect, on_ev_timeout_handshake,
}
use libbayeux.Client.Channels.Table.{Table, HasTable, HasTable-same}
use libbayeux.Client.Channels.Rows.{subscribed}
use libbayeux.Client.Invariant.Calls.{bayeux_client_create-IsClient}
use libbayeux.Client.System.{
  Event, publish, subscribe, unsubscribe, connect_timer, handshake_timer, flush_timer, batch,
  elapsed, handle, Admits, Step, step, Reach, start, later,
}
use libbayeux.Client.System.Pending.{IsSession}
use libbayeux.Client.System.Batch.{on_batch_recv-IsSession}
use libbayeux.Client.System.Connect.{issue_handshake-IsSession, issue_connect-IsSession}
use libbayeux.Client.System.Calls.{publish-IsSession, subscribe-IsSession, unsubscribe-IsSession}
use libbayeux.Client.System.Flush.{flush-IsSession}
use libbayeux.Client.System.Unique.{IsQueue-unique, HasTable-unique}

-- Only a subscription changes the table.
abbrev pub table_after : {J T : Type 0} → Event J T → Table → Table
table_after (publish channel text) table = table
table_after (subscribe channel sub) table = subscribed channel sub table
table_after (unsubscribe channel sub) table = table
table_after connect_timer table = table
table_after handshake_timer table = table
table_after flush_timer table = table
table_after (batch msgs) table = table
table_after (elapsed connect flush handshake) table = table

pub create-IsSession :
    {T : Type 0} (J : Type 0) (ev : Timers T) (endpoint : CString) (opts : BayeuxClientOpts)
    → IsSession (bayeux_client_create J ev endpoint opts) [] []
unfolding bayeux_client_create
create-IsSession J ev endpoint opts = record {
  client = bayeux_client_create-IsClient J ev endpoint opts;
}

module _ {J T : Type 0} (json : JsonC J) (ev : Timers T) where
  -- One event, for a client between two events (`IsSession`: the invariant `IsClient` holds), with the
  -- laws of json-c: a call, a timer, a batch or time that passes is handled without a fault and keeps
  -- all this, if a channel that is subscribed to has fewer than sixteen subscriptions, a batch is an
  -- array, a request that is sent stays below 2 ^ 32 bytes, and a handshake that is to be sent is in
  -- the outbox. Only a subscription changes the table of channels, by itself.
  pub handle-IsSession :
      Laws json
      → (event : Event J T) (c : Client J T) (es : List (Entry J)) (table : Table)
      → IsSession c es table
      → Admits json c es table event
      → (c' : Client J T) × (es' : List (Entry J)) × (handle json ev event c ≡ some c')
        × IsSession c' es' (table_after event table)
  unfolding handle on_ev_timeout_connect on_ev_timeout_handshake
  handle-IsSession laws (publish channel text) c es table v ok =
      publish-IsSession json ev c es table channel text v
  handle-IsSession laws (subscribe channel sub) c es table v ok =
      subscribe-IsSession json ev c es table channel sub v ok
  handle-IsSession laws (unsubscribe channel sub) c es table v ok =
      unsubscribe-IsSession json ev c es table channel sub v
  handle-IsSession laws connect_timer c es table v ok = issue_connect-IsSession json ev c es table v
  handle-IsSession laws handshake_timer c es table v ok =
      let (c', ran, v') = issue_handshake-IsSession json ev c es table v in (c', _, ran, v')
  handle-IsSession laws flush_timer c es table v ok =
      let (c', es', ran, v', _, _, _, _) = flush-IsSession json laws c es table v ok in
      (c', es', ran, v')
  handle-IsSession laws (batch msgs) c es table v ok =
      let (c', es', ran, v', _) = on_batch_recv-IsSession json ev c msgs es table v ok in
      (c', es', ran, v')
  handle-IsSession laws (elapsed connect flush handshake) c es table v ok =
      let c' = record c {
        ev_timeout_connect = connect;
        ev_timeout_flush = flush;
        ev_timeout_handshake = handshake;
      } in
      (
        c',
        es,
        refl,
        record {
          client = record {
            queue = v.client.queue;
            one_connect = v.client.one_connect;
            message_id = v.client.message_id;
            batch_id = v.client.batch_id;
            table_held = HasTable-same c c' table refl refl refl v.client.table_held;
          };
        },
      )

  -- A step leads from a session to a session.
  Step-IsSession :
      Laws json
      → (c c' : Client J T) (es : List (Entry J)) (table : Table) → IsSession c es table
      → Step json ev c c'
      → (es' : List (Entry J)) × (table' : Table) × IsSession c' es' table'
  Step-IsSession laws c c' es table v (step event fs table1 q held ok ran) =
      let entries : fs ≡ es = IsQueue-unique c.outbox fs es q v.client.queue in
      let tables : table1 ≡ table = HasTable-unique c table1 table held v.client.table_held in
      let admitted : Admits json c es table event =
        subst (λ t. Admits json c es t event) tables
          (subst (λ l. Admits json c l table1 event) entries ok) in
      let (c2, es2, ran2, v2) = handle-IsSession laws event c es table v admitted in
      let same : c2 ≡ c' = cc in
      (es2, table_after event table, subst (λ d. IsSession d es2 (table_after event table)) same v2)

  pub Reach-IsSession :
      Laws json
      → (c : Client J T) → Reach json ev c
      → (es : List (Entry J)) × (table : Table) × IsSession c es table
  Reach-IsSession laws c (start endpoint opts) = ([], [], create-IsSession J ev endpoint opts)
  Reach-IsSession laws c (later {c = c0} before moved) =
      let (es, table, v) = Reach-IsSession laws c0 before in
      Step-IsSession laws c0 c es table v moved

  -- For a client that came from `bayeux_client_create` by any calls, timers, batches and time that
  -- passes, with the laws of json-c: the next event is handled without a fault, if a channel that it
  -- subscribes to has fewer than sixteen subscriptions, a batch is an array of messages (and not null,
  -- as for a body that is no JSON), a request that it sends stays below 2 ^ 32 bytes, and
  -- `handshake_msg_index`, when the flush timer fires, is not set or names an entry of the outbox; and
  -- if this was so for the events before. The entries and the table are those that the client's arrays
  -- hold.
  pub handle-Reach :
      Laws json
      → (c : Client J T) (es : List (Entry J)) (table : Table) (event : Event J T) → Reach json ev c
      → IsQueue c.outbox es
      → HasTable c table
      → Admits json c es table event
      → (c' : Client J T) × (handle json ev event c ≡ some c') × Reach json ev c'
  handle-Reach laws c es table event reached q held ok =
      let (fs, table1, v) = Reach-IsSession laws c reached in
      let entries : es ≡ fs = IsQueue-unique c.outbox es fs q v.client.queue in
      let tables : table ≡ table1 = HasTable-unique c table table1 held v.client.table_held in
      let admitted : Admits json c fs table1 event =
        subst (λ t. Admits json c fs t event) tables
          (subst (λ l. Admits json c l table event) entries ok) in
      let (c', _, ran, _) = handle-IsSession laws event c fs table1 v admitted in
      (c', ran, later reached (step event es table q held ok ran))
