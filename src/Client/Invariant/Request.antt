-- ===== src/Client/Invariant/Request.antt =====
-- `issue_connect` and the invariant.
use libbayeux.Prelude.{
  ℕ, ◌≡◌, refl, sym, ap, ap₂, subst, ◌∙◌, Bool, true, false, List, [], ◌∷◌, ◌++◌, some, arith, inl,
  inr, length, append-nil, append_assoc, if◌then◌else◌, Bool-cases, ◌>>=◌,
}
use libbayeux.Json.{JsonC}
use libbayeux.MsgQueue.{MsgQueue, RecvFunc, msg_queue_push}
use libbayeux.MsgQueue.Entries.{Entry}
use libbayeux.MsgQueue.Append.{queued, msg_queue_push-append}
use libbayeux.Client.{Client, Timers, Reconnect, reconnect_none, connecting}
use libbayeux.Client.Schedule.{schedule_flush}
use libbayeux.Client.Messages.{make_handshake, make_connect}
use libbayeux.Client.Connect.{
  is_unconnected, same_reconnect, issue_handshake, send_connect, connect_once, issue_connect,
}
use libbayeux.Client.Channels.Table.{Table, HasTable-same}
use libbayeux.Client.Invariant.{IsClient, flag, count_connects-append}
use libbayeux.Client.Invariant.Steps.{
  SameCore-IsClient, schedule_flush-SameCore, queued-IsClient, issue_handshake_lem,
}

module _ {J T : Type 0} (json : JsonC J) (ev : Timers T) where
  -- the handshake message that a client still has to send
  abbrev pub handshake_request : Client J T → List (Entry J)
  handshake_request c =
      if is_unconnected c.state
      then (if same_reconnect c.advice.reconnect reconnect_none
          then []
          else queued (make_handshake json) RecvFunc.recv_handshake ∷ [])
      else []

  -- the connect message, unless there is one or the server has forbidden it
  abbrev pub connect_request : Reconnect → Bool → List (Entry J)
  connect_request reconnect in_flight =
      if same_reconnect reconnect reconnect_none
      then []
      else (if in_flight then [] else queued (make_connect json) RecvFunc.recv_connect ∷ [])

  schedule_flush-kept :
      (c : Client J T)
      → ((schedule_flush ev c).advice ≡ c.advice)
        × ((schedule_flush ev c).connect_msg_in_flight ≡ c.connect_msg_in_flight)
  unfolding schedule_flush
  schedule_flush-kept c = (ground arith, ground arith)

  pub issue_handshake-IsClient :
      (c : Client J T) (es : List (Entry J)) (table : Table)
      → IsClient c es table
      → (c' : Client J T) × (issue_handshake json ev c ≡ some c')
        × IsClient c' (es ++ handshake_request c) table
        × (c'.advice ≡ c.advice)
        × (c'.connect_msg_in_flight ≡ c.connect_msg_in_flight)
  issue_handshake-IsClient c es table v = elim (issue_handshake_lem json ev c es v.queue) [
    | inl (inl busy, ran) ↦ (c, ran, rw (busy, append-nil) v, refl, refl)
    | inl (inr forbidden, ran) ↦ elim (Bool-cases (is_unconnected c.state)) [
      | inl free ↦ (c, ran, rw (free, forbidden, append-nil) v, refl, refl)
      | inr busy ↦ (c, ran, rw (busy, append-nil) v, refl, refl)
    ]
    | inr (outbox, free, allowed, ran, q) ↦
        let e = queued (make_handshake json) RecvFunc.recv_handshake in
        let w = queued-IsClient c es table outbox e v q refl in
        let sender = record c {
          state = connecting;
          outbox = outbox;
          handshake_msg_index = some (length es);
        } in
        let v' =
          SameCore-IsClient sender (schedule_flush ev sender) (es ++ (e ∷ [])) table
            (schedule_flush-SameCore ev sender)
            (SameCore-IsClient (record c { outbox = outbox }) sender (es ++ (e ∷ [])) table
              (record {
                outbox = refl;
                flag = refl;
                message_id = refl;
                batch_id = refl;
                channels = refl;
                channel_count = refl;
                channel_capacity = refl;
              })
              w) in
        let kept = schedule_flush-kept sender in
        (schedule_flush ev sender, ran, rw (free, allowed) v', kept.0, kept.1)
  ]

  send_connect_steps :
      (c : Client J T) (index : ℕ) (outbox : MsgQueue J)
      → msg_queue_push c.outbox (make_connect json) RecvFunc.recv_connect ≡ some (index, outbox)
      → send_connect json ev c
        ≡ some (schedule_flush ev (record c { connect_msg_in_flight = true; outbox = outbox }))
  unfolding send_connect
  send_connect_steps c index outbox pushed = rw (pushed, ◌>>=◌) refl

  send_connect-IsClient :
      (c : Client J T) (es : List (Entry J)) (table : Table)
      → IsClient c es table
      → c.connect_msg_in_flight ≡ false
      → (c' : Client J T) × (send_connect json ev c ≡ some c')
        × IsClient c' (es ++ (queued (make_connect json) RecvFunc.recv_connect ∷ [])) table
  send_connect-IsClient c es table v idle =
      let e = queued (make_connect json) RecvFunc.recv_connect in
      let (outbox, pushed, q) =
        msg_queue_push-append c.outbox es (make_connect json) RecvFunc.recv_connect v.queue in
      let sender = record c { connect_msg_in_flight = true; outbox = outbox } in
      (
        schedule_flush ev sender,
        send_connect_steps c (length es) outbox pushed,
        SameCore-IsClient sender (schedule_flush ev sender) (es ++ (e ∷ [])) table
            (schedule_flush-SameCore ev sender)
            (record {
              queue = q;
              one_connect = omega (arith, count_connects-append es e, v.one_connect, ap flag idle);
              message_id = v.message_id;
              batch_id = v.batch_id;
              table_held = HasTable-same c sender table refl refl refl v.table_held;
            }),
      )

  pub connect_once-IsClient :
      (c : Client J T) (es : List (Entry J)) (table : Table)
      → IsClient c es table
      → (c' : Client J T) × (connect_once json ev c ≡ some c')
        × IsClient c' (es ++ connect_request c.advice.reconnect c.connect_msg_in_flight) table
  unfolding connect_once
  connect_once-IsClient c es table v =
      elim (Bool-cases (same_reconnect c.advice.reconnect reconnect_none)) [
        | inl forbidden ↦ (c, rw forbidden, rw (forbidden, append-nil) v)
        | inr allowed ↦ elim (Bool-cases c.connect_msg_in_flight) [
          | inl busy ↦
              let nothing : connect_request c.advice.reconnect c.connect_msg_in_flight ≡ [] =
                rw (allowed, busy) in
              (
                c,
                rw (allowed, busy),
                subst (λ es'. IsClient c es' table)
                    (sym (ap (λ r. es ++ r) nothing ∙ append-nil es)) v,
              )
          | inr idle ↦
              let (c', ran, v') = send_connect-IsClient c es table v idle in
              let one : connect_request c.advice.reconnect c.connect_msg_in_flight
                  ≡ queued (make_connect json) RecvFunc.recv_connect ∷ [] =
                rw (allowed, idle) in
              (c', rw (allowed, idle) ran, subst (λ r. IsClient c' (es ++ r) table) (sym one) v')
        ]
      ]

  pub issue_connect_steps :
      (c c1 c2 : Client J T)
      → issue_handshake json ev c ≡ some c1
      → connect_once json ev c1 ≡ some c2
      → issue_connect json ev c ≡ some c2
  unfolding issue_connect
  issue_connect_steps c c1 c2 first second = rw (first, ◌>>=◌, second)

  -- For a client with the invariant, `issue_connect` always succeeds and keeps it. It queues a
  -- handshake message if the client is not connected, and then a connect message if there is none
  -- yet, and neither if the server has advised against reconnecting.
  pub issue_connect-IsClient :
      (c : Client J T) (es : List (Entry J)) (table : Table)
      → IsClient c es table
      → (c' : Client J T) × (issue_connect json ev c ≡ some c')
        × IsClient c'
            (es
              ++ (handshake_request c
                  ++ connect_request c.advice.reconnect c.connect_msg_in_flight))
            table
  issue_connect-IsClient c es table v =
      let (c1, first, v1, advice, in_flight) = issue_handshake-IsClient c es table v in
      let (c2, second, v2) = connect_once-IsClient c1 (es ++ handshake_request c) table v1 in
      let same : connect_request c1.advice.reconnect c1.connect_msg_in_flight
          ≡ connect_request c.advice.reconnect c.connect_msg_in_flight =
        ap₂ (λ a f. connect_request a.reconnect f) advice in_flight in
      let entries =
        append_assoc es (handshake_request c)
          (connect_request c.advice.reconnect c.connect_msg_in_flight) in
      (
        c2,
        issue_connect_steps c c1 c2 first second,
        subst (λ es'. IsClient c2 es' table)
            (ap (λ r. (es ++ handshake_request c) ++ r) same ∙ entries) v2,
      )
