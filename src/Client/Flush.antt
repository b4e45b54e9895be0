-- ===== src/Client/Flush.antt =====
-- src/bayeux.c: the encoding and sending of queued messages. Each `str_cat` is granted its memory.
pub mod Spec
pub mod Assign
pub mod Loop
pub mod Batch
pub mod Single
pub mod Freed
pub mod Correlate
use libbayeux.Prelude.{
  ℕ, zero, suc, ◌+◌, Bool, true, false, Option, none, some, ltb, ◌==◌, if◌then◌else◌, ◌>>=◌, List,
  [], ◌∷◌, ◌++◌,
}
use libbayeux.Libc.{CString, codes}
use libbayeux.Memory.{load, store}
use libbayeux.Str.{Str, str_alloc, str_cat, str_len}
use libbayeux.Json.{JsonC}
use libbayeux.Json.Util.{json_set_string}
use libbayeux.MsgQueue.{MsgQueue, msg_id_invalid}
use libbayeux.Client.{Client, Effect, sent}
use libbayeux.Client.Schedule.{next_batch_id}
use libbayeux.Client.Messages.{json_set_msg_id}

-- the `clientId` of a message, if the server has given one
unfoldable pub set_client_id : {J : Type 0} → JsonC J → Option CString → J → J
set_client_id json none msg = msg
set_client_id json (some id) msg = json_set_string json msg (codes "clientId") id

module _ {J T : Type 0} (json : JsonC J) where
  -- The message at `index` is given its ids, and `clientId`: the steps that both functions share.
  unfoldable pub assign_ids : Client J T → ℕ → ℕ → Option (J × Client J T)
  unfolding set_client_id
  assign_ids client batch_id index = do
    msg ← load client.outbox.msgs index
    let (msg_id, msg', client') = json_set_msg_id json msg client
    let msg'' = set_client_id json client'.id msg'
    msg_ids ← store client'.outbox.msg_ids index msg_id
    msgs ← store client'.outbox.msgs index msg''
    batch_ids ← store client'.outbox.batch_ids index batch_id
    some (
      msg'',
      record client' {
        outbox = record client'.outbox { msgs = msgs; batch_ids = batch_ids; msg_ids = msg_ids };
      },
    )

  -- The body of the loop for a message that is not in flight.
  unfoldable pub flush_msg : Str → Client J T → ℕ → ℕ → Option (Str × Client J T)
  unfolding assign_ids
  flush_msg msg_json client batch_id index = do
    (msg, client') ← assign_ids client batch_id index
    separated ←
        if ltb 1 (str_len msg_json) then str_cat true msg_json (codes ",") else some msg_json
    msg_json' ← str_cat true separated (json.to_json_string msg)
    some (msg_json', client')

  -- The loop of `msg_queue_flush` with `rounds` rounds left.
  unfoldable pub flush_from : Str → Client J T → ℕ → ℕ → ℕ → Option (Str × Client J T)
  unfolding flush_msg
  flush_from msg_json client batch_id zero index = some (msg_json, client)
  flush_from msg_json client batch_id (suc rounds) index = do
    msg_id ← load client.outbox.msg_ids index
    let encoded = flush_msg msg_json client batch_id index
    (msg_json', client') ← if msg_id == msg_id_invalid then encoded else some (msg_json, client)
    flush_from msg_json' client' batch_id rounds (index + 1)

  unfoldable pub flush_all : Str → Client J T → Option (Str × Client J T)
  unfolding flush_from
  flush_all msg_json client = do
    let (batch_id, client') = next_batch_id client
    opened ← str_cat true msg_json (codes "[")
    (encoded, client'') ← flush_from opened client' batch_id client'.outbox.count 0
    closed ← str_cat true encoded (codes "]")
    some (closed, client'')

  -- The queue is always the outbox of the client.
  unfoldable pub msg_queue_flush : Str → Client J T → Option (Str × Client J T)
  unfolding flush_all
  msg_queue_flush msg_json client =
      if client.outbox.count == 0 then some (msg_json, client) else flush_all msg_json client

  unfoldable pub flush_only : Str → Client J T → ℕ → Option (Str × Client J T)
  unfolding assign_ids
  flush_only msg_json client index = do
    let (batch_id, client') = next_batch_id client
    opened ← str_cat true msg_json (codes "[")
    (msg, client'') ← assign_ids client' batch_id index
    encoded ← str_cat true opened (json.to_json_string msg)
    closed ← str_cat true encoded (codes "]")
    some (closed, client'')

  unfoldable pub msg_queue_flush_one : Str → Client J T → ℕ → Option (Str × Client J T)
  unfolding flush_only
  msg_queue_flush_one msg_json client index = do
    msg_id ← load client.outbox.msg_ids index
    let encoded = flush_only msg_json client index
    if msg_id == msg_id_invalid then encoded else some (msg_json, client)

  -- The choice of `on_ev_timeout_flush`, by `handshake_msg_index`.
  unfoldable pub encode_batch : Option ℕ → Str → Client J T → Option (Str × Client J T)
  unfolding msg_queue_flush msg_queue_flush_one
  encode_batch (some index) msg_json client = msg_queue_flush_one msg_json client index
  encode_batch none msg_json client = msg_queue_flush msg_json client

  unfoldable pub on_ev_timeout_flush : Client J T → Option (Client J T)
  unfolding encode_batch
  on_ev_timeout_flush client = do
    msg_json ← str_alloc true 4096
    (body, client') ← encode_batch client.handshake_msg_index msg_json client
    some (record client' { effects = client'.effects ++ (sent body ∷ []) })
