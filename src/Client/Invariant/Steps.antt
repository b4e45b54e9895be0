-- ===== src/Client/Invariant/Steps.antt =====
-- `issue_handshake`, `schedule_flush` and the invariant.
use libbayeux.Prelude.{
  ℕ, ◌≡◌, refl, sym, ap, subst, ◌∙◌, ◌⊎◌, inl, inr, true, false, List, [], ◌∷◌, ◌++◌, some, arith,
  length, Bool-cases, ◌>>=◌,
}
use libbayeux.Json.{JsonC}
use libbayeux.MsgQueue.{MsgQueue, RecvFunc, msg_queue_push}
use libbayeux.MsgQueue.Entries.{Entry, IsQueue}
use libbayeux.MsgQueue.Append.{queued, msg_queue_push-append}
use libbayeux.Client.{Client, Timers, reconnect_none, connecting}
use libbayeux.Client.Schedule.{schedule_flush}
use libbayeux.Client.Messages.{make_handshake}
use libbayeux.Client.Connect.{is_unconnected, same_reconnect, send_handshake, issue_handshake}
use libbayeux.Client.Channels.Table.{Table, HasTable-same}
use libbayeux.Client.Invariant.{IsClient, connects, flag, count_connects-append}

module _ {J T : Type 0} where
  -- The invariant does not speak of the timers, the state or the advice.
  pub record SameCore (c d : Client J T) : Type 0 where
    pub outbox : d.outbox ≡ c.outbox
    pub flag : d.connect_msg_in_flight ≡ c.connect_msg_in_flight
    pub message_id : d.message_id ≡ c.message_id
    pub batch_id : d.batch_id ≡ c.batch_id
    pub channels : d.channels ≡ c.channels
    pub channel_count : d.channel_count ≡ c.channel_count
    pub channel_capacity : d.channel_capacity ≡ c.channel_capacity

  pub SameCore-IsClient :
      (c d : Client J T) (es : List (Entry J)) (table : Table)
      → SameCore c d
      → IsClient c es table
      → IsClient d es table
  SameCore-IsClient c d es table s v = record {
    queue = subst (λ q. IsQueue q es) (sym s.outbox) v.queue;
    one_connect = v.one_connect ∙ ap flag (sym s.flag);
    message_id = omega (arith, v.message_id, s.message_id);
    batch_id = omega (arith, v.batch_id, s.batch_id);
    table_held = HasTable-same c d table s.channels s.channel_count s.channel_capacity v.table_held;
  }

  pub schedule_flush-SameCore : (ev : Timers T) (c : Client J T) → SameCore c (schedule_flush ev c)
  unfolding schedule_flush
  schedule_flush-SameCore ev c = record {
    outbox = ground arith;
    flag = ground arith;
    message_id = ground arith;
    batch_id = ground arith;
    channels = ground arith;
    channel_count = ground arith;
    channel_capacity = ground arith;
  }

  -- A message that is no connect message joins the outbox.
  pub queued-IsClient :
      (c : Client J T) (es : List (Entry J)) (table : Table) (outbox : MsgQueue J) (e : Entry J)
      → IsClient c es table
      → IsQueue outbox (es ++ (e ∷ []))
      → connects e.func ≡ 0
      → IsClient (record c { outbox = outbox }) (es ++ (e ∷ [])) table
  queued-IsClient c es table outbox e v q plain = record {
    queue = q;
    one_connect = omega (arith, v.one_connect, count_connects-append es e);
    message_id = v.message_id;
    batch_id = v.batch_id;
    table_held = HasTable-same c (record c { outbox = outbox }) table refl refl refl v.table_held;
  }

module _ {J T : Type 0} (json : JsonC J) (ev : Timers T) where
  send_handshake_steps :
      (c : Client J T) (index : ℕ) (outbox : MsgQueue J)
      → msg_queue_push c.outbox (make_handshake json) RecvFunc.recv_handshake ≡ some (index, outbox)
      → send_handshake json ev c
        ≡ some (
            schedule_flush ev
              (record c { state = connecting; outbox = outbox; handshake_msg_index = some index }))
  unfolding send_handshake
  send_handshake_steps c index outbox pushed = rw (pushed, ◌>>=◌) refl

  -- What `issue_handshake` leaves where it sends.
  abbrev pub handshaking : Client J T → List (Entry J) → MsgQueue J → Client J T
  handshaking c es outbox =
      schedule_flush ev
        (record c { state = connecting; outbox = outbox; handshake_msg_index = some (length es) })

  -- With a well-formed outbox: a client that is unconnected, and may reconnect, queues a handshake
  -- message and notes its index; any other is left as it is.
  pub issue_handshake_lem :
      (c : Client J T) (es : List (Entry J))
      → IsQueue c.outbox es
      → (((is_unconnected c.state ≡ false)
            ⊎ (same_reconnect c.advice.reconnect reconnect_none ≡ true))
          × (issue_handshake json ev c ≡ some c))
        ⊎ ((outbox : MsgQueue J) × (is_unconnected c.state ≡ true)
            × (same_reconnect c.advice.reconnect reconnect_none ≡ false)
            × (issue_handshake json ev c ≡ some (handshaking c es outbox))
            × IsQueue outbox (es ++ (queued (make_handshake json) RecvFunc.recv_handshake ∷ [])))
  unfolding issue_handshake
  issue_handshake_lem c es q = elim (Bool-cases (is_unconnected c.state)) [
    | inr busy ↦ inl (inl busy, rw busy)
    | inl free ↦ elim (Bool-cases (same_reconnect c.advice.reconnect reconnect_none)) [
      | inl forbidden ↦ inl (inr forbidden, rw (free, forbidden))
      | inr allowed ↦
          let (outbox, pushed, q') =
            msg_queue_push-append c.outbox es (make_handshake json) RecvFunc.recv_handshake q in
          inr (
            outbox,
            free,
            allowed,
            rw (free, allowed) (send_handshake_steps c (length es) outbox pushed),
            q',
          )
    ]
  ]
