-- ===== src/Client/Receive.antt =====
-- src/bayeux.c: what the client does with a batch of messages from the server.
--
-- A message of a batch may be null (a JSON null). `log_info` is left out.
pub mod Answer
pub mod Lost
pub mod Resend
use libbayeux.Prelude.{
  ℕ, zero, suc, ◌+◌, ◌%◌, Bool, true, false, not, List, Option, none, some, ltb, if◌then◌else◌,
  ◌>>=◌,
}
use libbayeux.Prelude.Int.{ℤ, pos}
use libbayeux.Libc.{CString, codes, str_eq}
use libbayeux.Memory.{load}
use libbayeux.Json.{JsonC}
use libbayeux.Json.Util.{json_get_string, json_get_bool}
use libbayeux.MsgQueue.{
  MsgQueue, RecvFunc, msg_queue_find_by_msg_id, msg_queue_remove_ordered, forget_batch,
}
use libbayeux.Client.{Client, Timers, Timeval, State, unconnected, connected}
use libbayeux.Client.Schedule.{schedule_connect, schedule_flush}
use libbayeux.Client.Messages.{json_get_msg_id}
use libbayeux.Client.Channels.{channel_deliver}
use libbayeux.Client.Connect.{handle_advice}

module _ {J T : Type 0} (json : JsonC J) (ev : Timers T) where
  unfoldable pub recv_connect : Client J T → Client J T
  recv_connect client = schedule_connect ev (record client { connect_msg_in_flight = false })

  unfoldable pub recv_event : Client J T → Option J → Option (Client J T)
  recv_event client msg = elim (json_get_string json msg (codes "channel")) [
    | none ↦ some client
    | some channel ↦ elim (json.object_get msg (codes "data")) [
      | none ↦ some client
      | some msg_data ↦ channel_deliver json client channel msg_data
    ]
  ]

  -- The timeout, in milliseconds, is set as a number of seconds.
  unfoldable pub recv_handshake_error : Client J T → Client J T
  recv_handshake_error client = record client {
    ev_timeout_handshake =
        ev.evtimer_add client.ev_timeout_handshake
          (record { sec = client.advice.timeout_ms; usec = pos 0 });
    state = unconnected;
  }

  unfoldable pub recv_handshake_success : Client J T → Option J → Client J T
  unfolding recv_handshake_error
  recv_handshake_success client msg = elim (json_get_string json msg (codes "channel")) [
    | none ↦ recv_handshake_error client
    | some channel ↦ elim (str_eq channel (codes "/meta/handshake")) [
      | false ↦ recv_handshake_error client
      | true ↦ elim (json_get_string json msg (codes "clientId")) [
        | none ↦ recv_handshake_error client
        | some client_id ↦ record client { id = some client_id; state = connected }
      ]
    ]
  ]

  unfoldable pub recv_handshake : Client J T → Option J → Client J T
  unfolding recv_handshake_success
  recv_handshake client msg =
      let client' = record client { handshake_msg_index = none } in
      elim (json_get_bool json msg (codes "successful")) [
        | none ↦ client'
        | some true ↦ recv_handshake_success client' msg
        | some false ↦ recv_handshake_error client'
      ]

  -- A call through the function pointer of an entry. `recv_publish`, `recv_subscribe` and
  -- `recv_unsubscribe` change nothing.
  unfoldable pub call_recv : RecvFunc → Client J T → Option J → Client J T
  unfolding recv_connect recv_handshake
  call_recv RecvFunc.recv_connect client msg = recv_connect client
  call_recv RecvFunc.recv_handshake client msg = recv_handshake client msg
  call_recv RecvFunc.recv_publish client msg = client
  call_recv RecvFunc.recv_subscribe client msg = client
  call_recv RecvFunc.recv_unsubscribe client msg = client

  -- The answer to the entry at `msg_index`: its function, then its removal.
  unfoldable pub answer_at : Client J T → Option J → ℕ → Option (Client J T)
  unfolding call_recv
  answer_at client msg msg_index = do
    func ← load client.outbox.funcs msg_index
    let client' = call_recv func client msg
    outbox ← msg_queue_remove_ordered client'.outbox msg_index
    some (record client' { outbox = outbox })

  -- What follows the search; -1 is an unknown id.
  unfoldable pub answer_found : Client J T → Option J → Option ℕ → Option (Client J T)
  unfolding answer_at
  answer_found client msg none = some client
  answer_found client msg (some msg_index) = answer_at client msg msg_index

  -- What follows the read of the id; without one the message is ignored.
  unfoldable pub answer_id : Client J T → Option J → Option ℕ → Option (Client J T)
  unfolding answer_found
  answer_id client msg none = some client
  answer_id client msg (some msg_id) = do
    found ← msg_queue_find_by_msg_id client.outbox msg_id
    answer_found client msg found

  -- The branch of `on_msg_recv` for a message without data.
  unfoldable pub recv_answer : Client J T → Option J → Option (Client J T)
  unfolding answer_id
  recv_answer client msg = answer_id client msg (json_get_msg_id json msg)

  -- The choice of `on_msg_recv`, by the field `data`.
  unfoldable pub dispatch : Client J T → Option J → Option J → Option (Client J T)
  unfolding recv_event recv_answer
  dispatch client msg none = recv_answer client msg
  dispatch client msg (some msg_data) = recv_event client msg

  unfoldable pub on_msg_recv : Client J T → Option J → Option (Client J T)
  unfolding dispatch
  on_msg_recv client msg =
      dispatch (handle_advice json ev client msg) msg (json.object_get msg (codes "data"))

  -- The loop of `on_batch_recv` with `rounds` rounds left.
  unfoldable pub recv_from : Client J T → Option J → ℕ → ℕ → Option (Client J T)
  unfolding on_msg_recv
  recv_from client msgs zero index = some client
  recv_from client msgs (suc rounds) index = do
    client' ← on_msg_recv client (json.array_get_idx msgs index)
    recv_from client' msgs rounds (index + 1)

  unfoldable pub on_batch_recv : Client J T → Option J → Option (Client J T)
  unfolding recv_from
  on_batch_recv client msgs = do
    count ← json.array_length msgs
    client' ← recv_from client msgs count 0
    some (if ltb 0 client'.outbox.count then schedule_flush ev client' else client')

module _ {J T : Type 0} (ev : Timers T) where
  -- No code calls this function.
  unfoldable pub on_batch_send_err : Client J T → ℕ → Option (Client J T)
  on_batch_send_err client batch_id = do
    let outbox = client.outbox
    (batch_ids, msg_ids) ← forget_batch batch_id outbox.count 0 (outbox.batch_ids, outbox.msg_ids)
    let outbox' = record outbox { batch_ids = batch_ids; msg_ids = msg_ids }
    some (schedule_flush ev (record client { outbox = outbox' }))
