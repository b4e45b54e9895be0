-- ===== src/Client/Connect.antt =====
-- src/bayeux.c: `issue_handshake`, `issue_connect` and `handle_advice`.
pub mod Advised
pub mod Handled
use libbayeux.Prelude.{Bool, true, false, List, [], ◌∷◌, Option, none, some, if◌then◌else◌, ◌>>=◌}
use libbayeux.Libc.{CString, codes, str_eq}
use libbayeux.Json.{JsonC}
use libbayeux.Json.Util.{json_get_string, json_get_int}
use libbayeux.MsgQueue.{msg_queue_push, RecvFunc}
use libbayeux.Client.{
  Client, Timers, Advice, Reconnect, reconnect_handshake, reconnect_none, reconnect_retry, State,
  unconnected, connecting, connected,
}
use libbayeux.Client.Schedule.{schedule_connect, schedule_flush}
use libbayeux.Client.Messages.{make_handshake, make_connect}

-- `==` on the two enumerations
abbrev pub is_unconnected : State → Bool
is_unconnected unconnected = true
is_unconnected connecting = false
is_unconnected connected = false

abbrev pub same_reconnect : Reconnect → Reconnect → Bool
same_reconnect reconnect_handshake reconnect_handshake = true
same_reconnect reconnect_none reconnect_none = true
same_reconnect reconnect_retry reconnect_retry = true
same_reconnect _ _ = false

-- `s_reconnect_strs`, each string beside the value that its index is cast to
abbrev pub reconnect_strs : List (CString × Reconnect)
reconnect_strs =
    (codes "handshake", reconnect_handshake)
    ∷ (codes "none", reconnect_none)
    ∷ (codes "retry", reconnect_retry)
    ∷ []

-- The loop over the strings; a match with the value that already holds does not break out of it.
unfoldable pub match_reconnect : List (CString × Reconnect) → CString → Reconnect → Reconnect
match_reconnect [] reconnect_str current = current
match_reconnect ((str, new_val) ∷ rest) reconnect_str current =
    let later = match_reconnect rest reconnect_str current in
    if str_eq reconnect_str str
    then (if same_reconnect new_val current then later else new_val)
    else later

abbrev pub or_else {ℓ} : {A : Type ℓ} → Option A → A → A
or_else none a = a
or_else (some b) a = b

module _ {J : Type 0} (json : JsonC J) where
  -- The block `if (advice) { … }`.
  unfoldable pub take_advice : J → Advice → Advice
  unfolding match_reconnect
  take_advice msg_advice advice = record advice {
    reconnect = elim (json_get_string json (some msg_advice) (codes "reconnect")) [
      | none ↦ advice.reconnect
      | some reconnect_str ↦ match_reconnect reconnect_strs reconnect_str advice.reconnect
    ];
    interval_ms =
        or_else (json_get_int json (some msg_advice) (codes "interval")) advice.interval_ms;
  }

  unfoldable pub advised : Option J → Advice → Advice
  advised msg advice = elim (json.object_get msg (codes "advice")) [
    | none ↦ advice
    | some msg_advice ↦ take_advice msg_advice advice
  ]

module _ {J T : Type 0} (json : JsonC J) (ev : Timers T) where
  unfoldable pub handle_advice : Client J T → Option J → Client J T
  handle_advice client msg =
      let client' = record client { advice = advised json msg client.advice } in
      if same_reconnect client'.advice.reconnect reconnect_handshake
      then schedule_connect ev (record client' { state = unconnected })
      else client'

  -- the message, the state and the timer that `issue_handshake` leaves
  unfoldable pub send_handshake : Client J T → Option (Client J T)
  send_handshake client = do
    (index, outbox) ← msg_queue_push client.outbox (make_handshake json) RecvFunc.recv_handshake
    some (
        schedule_flush ev
          (record client { state = connecting; outbox = outbox; handshake_msg_index = some index }))

  unfoldable pub issue_handshake : Client J T → Option (Client J T)
  unfolding send_handshake
  issue_handshake client =
      if is_unconnected client.state
      then if same_reconnect client.advice.reconnect reconnect_none
        then some client
        else send_handshake client
      else some client

  -- the message, the flag and the timer that `issue_connect` leaves
  unfoldable pub send_connect : Client J T → Option (Client J T)
  send_connect client = do
    (_, outbox) ← msg_queue_push client.outbox (make_connect json) RecvFunc.recv_connect
    some (schedule_flush ev (record client { connect_msg_in_flight = true; outbox = outbox }))

  -- `issue_connect` behind its call of `issue_handshake`
  unfoldable pub connect_once : Client J T → Option (Client J T)
  unfolding send_connect
  connect_once client =
      if same_reconnect client.advice.reconnect reconnect_none
      then some client
      else if client.connect_msg_in_flight
      then some client
      else send_connect client

  unfoldable pub issue_connect : Client J T → Option (Client J T)
  unfolding connect_once
  issue_connect client = do client' ← issue_handshake client; connect_once client'
