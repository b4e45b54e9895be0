-- ===== src/Client/Invariant/Calls.antt =====
-- The exported calls and the invariant.
use libbayeux.Prelude.{ℕ, ◌≡◌, refl, List, [], ◌∷◌, ◌++◌, length, some, arith, ◌>>=◌}
use libbayeux.Libc.{CString}
use libbayeux.Json.{JsonC}
use libbayeux.MsgQueue.{MsgQueue, RecvFunc, msg_queue_push}
use libbayeux.MsgQueue.Entries.{Entry, create-IsQueue}
use libbayeux.MsgQueue.Append.{queued, msg_queue_push-append}
use libbayeux.Client.{Client, Timers}
use libbayeux.Client.Schedule.{schedule_flush}
use libbayeux.Client.Messages.{make_publish}
use libbayeux.Client.Connect.{issue_connect}
use libbayeux.Client.Api.{BayeuxClientOpts, bayeux_client_create, bayeux_client_publish}
use libbayeux.Client.Channels.Table.{Table}
use libbayeux.Client.Invariant.{IsClient}
use libbayeux.Client.Invariant.Steps.{SameCore-IsClient, schedule_flush-SameCore, queued-IsClient}
use libbayeux.Client.Invariant.Request.{handshake_request, connect_request, issue_connect-IsClient}

module _ {J T : Type 0} (json : JsonC J) (ev : Timers T) where
  publish_steps :
      (c c1 : Client J T) (channel text : CString) (index : ℕ) (outbox : MsgQueue J)
      → issue_connect json ev c ≡ some c1
      → msg_queue_push c1.outbox (make_publish json channel text) RecvFunc.recv_publish
        ≡ some (index, outbox)
      → bayeux_client_publish json ev c channel text
        ≡ some (schedule_flush ev (record c1 { outbox = outbox }))
  unfolding bayeux_client_publish
  publish_steps c c1 channel text index outbox connected pushed =
      rw (connected, ◌>>=◌, pushed, ◌>>=◌) refl

  -- what a call leaves in the outbox: the requests for a connection, and then its own message
  abbrev pub called_with : Client J T → List (Entry J) → Entry J → List (Entry J)
  called_with c es e =
      (es
        ++ (handshake_request json ev c
            ++ connect_request json ev c.advice.reconnect c.connect_msg_in_flight))
      ++ (e ∷ [])

  -- For a client with the invariant, a publish always succeeds and keeps it. Its message goes to
  -- the end of the outbox, behind the handshake and the connect message that it may have queued.
  pub bayeux_client_publish-IsClient :
      (c : Client J T) (es : List (Entry J)) (table : Table) (channel text : CString)
      → IsClient c es table
      → (c' : Client J T) × (bayeux_client_publish json ev c channel text ≡ some c')
        × IsClient c'
            (called_with c es (queued (make_publish json channel text) RecvFunc.recv_publish))
            table
  bayeux_client_publish-IsClient c es table channel text v =
      let e = queued (make_publish json channel text) RecvFunc.recv_publish in
      let (c1, connected, v1) = issue_connect-IsClient json ev c es table v in
      let es1 =
        es
        ++ (handshake_request json ev c
            ++ connect_request json ev c.advice.reconnect c.connect_msg_in_flight) in
      let (outbox, pushed, q) =
        msg_queue_push-append c1.outbox es1 (make_publish json channel text) RecvFunc.recv_publish
          v1.queue in
      let sender = record c1 { outbox = outbox } in
      (
        schedule_flush ev sender,
        publish_steps c c1 channel text (length es1) outbox connected pushed,
        SameCore-IsClient sender (schedule_flush ev sender) (es1 ++ (e ∷ [])) table
            (schedule_flush-SameCore ev sender) (queued-IsClient c1 es1 table outbox e v1 q refl),
      )

module _ {T : Type 0} (J : Type 0) (ev : Timers T) where
  -- A client that was just created satisfies the invariant, with an empty outbox and no channel.
  pub bayeux_client_create-IsClient :
      (endpoint : CString) (opts : BayeuxClientOpts)
      → IsClient (bayeux_client_create J ev endpoint opts) [] []
  unfolding bayeux_client_create
  bayeux_client_create-IsClient endpoint opts = record {
    queue = create-IsQueue J;
    one_connect = refl;
    message_id = omega arith;
    batch_id = omega arith;
    table_held = record { channels = []; held = tt; count = refl; size = refl; rows = tt };
  }
