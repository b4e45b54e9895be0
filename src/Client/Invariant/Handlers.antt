-- ===== src/Client/Invariant/Handlers.antt =====
-- The handlers of messages and the invariant.
use libbayeux.Prelude.{
  ℕ, ◌+◌, ◌≡◌, refl, sym, ap, ◌∙◌, ◌⊎◌, false, List, Option, none, arith, inl, inr,
}
use libbayeux.Json.{JsonC}
use libbayeux.MsgQueue.{MsgQueue, RecvFunc}
use libbayeux.MsgQueue.Entries.{Entry, IsQueue}
use libbayeux.Client.{Client, Timers}
use libbayeux.Client.Schedule.{schedule_connect}
use libbayeux.Client.Connect.{handle_advice}
use libbayeux.Client.Channels.Table.{Table, HasTable-same}
use libbayeux.Client.Receive.{
  recv_connect, recv_handshake, recv_handshake_success, recv_handshake_error, call_recv,
}
use libbayeux.Client.Receive.Answer.{call_recv-SameStore, handle_advice-SameStore}
use libbayeux.Client.Invariant.{IsClient, connects, flag, count_connects}
use libbayeux.Client.Invariant.Steps.{SameCore-IsClient}

module _ {J T : Type 0} (json : JsonC J) (ev : Timers T) where
  handle_advice-flag :
      (c : Client J T) (msg : Option J)
      → (handle_advice json ev c msg).connect_msg_in_flight ≡ c.connect_msg_in_flight
  unfolding handle_advice schedule_connect
  handle_advice-flag c msg = ground arith

  pub handle_advice-IsClient :
      (c : Client J T) (msg : Option J) (es : List (Entry J)) (table : Table)
      → IsClient c es table
      → IsClient (handle_advice json ev c msg) es table
  handle_advice-IsClient c msg es table v =
      let s = handle_advice-SameStore json ev c msg in
      SameCore-IsClient c (handle_advice json ev c msg) es table
        (record {
          outbox = s.outbox;
          flag = handle_advice-flag c msg;
          message_id = s.message_id;
          batch_id = s.batch_id;
          channels = s.channels;
          channel_count = s.channel_count;
          channel_capacity = s.channel_capacity;
        })
        v

  recv_handshake-flag :
      (c : Client J T) (msg : Option J)
      → (recv_handshake json ev c msg).connect_msg_in_flight ≡ c.connect_msg_in_flight
  unfolding recv_handshake recv_handshake_success recv_handshake_error
  recv_handshake-flag c msg = ground arith

  recv_connect-flag : (c : Client J T) → (recv_connect json ev c).connect_msg_in_flight ≡ false
  unfolding recv_connect schedule_connect
  recv_connect-flag c = ground arith

  -- The flag follows the number of connect messages when an entry is answered.
  call_recv-flag :
      (func : RecvFunc) (c : Client J T) (msg : Option J) (others : ℕ)
      → others + connects func ≡ flag c.connect_msg_in_flight
      → others ≡ flag (call_recv json ev func c msg).connect_msg_in_flight
  unfolding call_recv
  call_recv-flag RecvFunc.recv_connect c msg others h = ground (arith, recv_connect-flag c)
  call_recv-flag RecvFunc.recv_handshake c msg others h =
      omega arith ∙ h ∙ ap flag (sym (recv_handshake-flag c msg))
  call_recv-flag RecvFunc.recv_publish c msg others h = omega arith ∙ h
  call_recv-flag RecvFunc.recv_subscribe c msg others h = omega arith ∙ h
  call_recv-flag RecvFunc.recv_unsubscribe c msg others h = omega arith ∙ h

  pub answered-IsClient :
      (c : Client J T) (msg : Option J) (es : List (Entry J)) (table : Table) (e : Entry J)
      (rest : List (Entry J)) (outbox : MsgQueue J)
      → IsClient c es table
      → count_connects rest + connects e.func ≡ count_connects es
      → IsQueue outbox rest
      → IsClient (record (call_recv json ev e.func c msg) { outbox = outbox }) rest table
  answered-IsClient c msg es table e rest outbox v count q =
      let s = call_recv-SameStore json ev e.func c msg in
      record {
        queue = q;
        one_connect = call_recv-flag e.func c msg (count_connects rest) (count ∙ v.one_connect);
        message_id = omega (arith, v.message_id, s.message_id);
        batch_id = omega (arith, v.batch_id, s.batch_id);
        table_held =
            HasTable-same c (record (call_recv json ev e.func c msg) { outbox = outbox }) table
              s.channels s.channel_count s.channel_capacity v.table_held;
      }

  pub handle_advice-index :
      (c : Client J T) (msg : Option J)
      → (handle_advice json ev c msg).handshake_msg_index ≡ c.handshake_msg_index
  unfolding handle_advice schedule_connect
  handle_advice-index c msg = ground arith

  recv_connect-index :
      (c : Client J T) → (recv_connect json ev c).handshake_msg_index ≡ c.handshake_msg_index
  unfolding recv_connect schedule_connect
  recv_connect-index c = ground arith

  recv_handshake-index :
      (c : Client J T) (msg : Option J) → (recv_handshake json ev c msg).handshake_msg_index ≡ none
  unfolding recv_handshake recv_handshake_success recv_handshake_error
  recv_handshake-index c msg = ground arith

  -- Only the answer to a handshake touches the index, and it clears it.
  pub call_recv-index :
      (func : RecvFunc) (c : Client J T) (msg : Option J)
      → ((call_recv json ev func c msg).handshake_msg_index ≡ c.handshake_msg_index)
        ⊎ ((call_recv json ev func c msg).handshake_msg_index ≡ none)
  unfolding call_recv
  call_recv-index RecvFunc.recv_connect c msg = inl (recv_connect-index c)
  call_recv-index RecvFunc.recv_handshake c msg = inr (recv_handshake-index c msg)
  call_recv-index RecvFunc.recv_publish c msg = inl refl
  call_recv-index RecvFunc.recv_subscribe c msg = inl refl
  call_recv-index RecvFunc.recv_unsubscribe c msg = inl refl
