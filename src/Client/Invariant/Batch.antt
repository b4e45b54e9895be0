-- ===== src/Client/Invariant/Batch.antt =====
-- `on_batch_recv` and the invariant.
use libbayeux.Prelude.{
  ℕ, zero, suc, ◌+◌, ◌≡◌, refl, List, ◌++◌, Option, none, some, inl, inr, ltb, arith, erase_idx,
  if◌then◌else◌, Bool-cases, Option-cases, ◌>>=◌,
}
use libbayeux.Libc.{codes}
use libbayeux.Json.{JsonC, IsArray}
use libbayeux.Json.Util.{json_get_string}
use libbayeux.MsgQueue.Entries.{Entry}
use libbayeux.Client.{Client, Timers}
use libbayeux.Client.Schedule.{schedule_flush}
use libbayeux.Client.Messages.{json_get_msg_id}
use libbayeux.Client.Connect.{handle_advice}
use libbayeux.Client.Channels.Table.{Table}
use libbayeux.Client.Channels.Heard.{Heard, Heard-same, Heard-trans, deliveries-ComesFrom}
use libbayeux.Client.Channels.Deliver.{channel_deliver-deliveries, deliveries}
use libbayeux.Client.Receive.{
  recv_event, call_recv, recv_answer, dispatch, on_msg_recv, recv_from, on_batch_recv, answer_id,
}
use libbayeux.Client.Receive.Answer.{
  handle_advice-SameStore, call_recv-SameStore, answer_id-Answered,
}
use libbayeux.Client.Invariant.{IsClient, count_connects-erase_idx}
use libbayeux.Client.Invariant.Steps.{SameCore-IsClient, schedule_flush-SameCore}
use libbayeux.Client.Invariant.Handlers.{handle_advice-IsClient, answered-IsClient}

module _ {J T : Type 0} (json : JsonC J) (ev : Timers T) where
  unfoldable finished : Client J T → Client J T
  finished c = if ltb 0 c.outbox.count then schedule_flush ev c else c

  finished-IsClient :
      (c : Client J T) (es : List (Entry J)) (table : Table)
      → IsClient c es table
      → IsClient (finished c) es table
  unfolding finished
  finished-IsClient c es table v = elim (Bool-cases (ltb 0 c.outbox.count)) [
    | inl more ↦
        rw more
          (SameCore-IsClient c (schedule_flush ev c) es table (schedule_flush-SameCore ev c) v)
    | inr empty ↦ rw empty v
  ]

module _ {J T : Type 0} (json : JsonC J) (ev : Timers T) where
  -- A step gives a client, the invariant holds of it, and only registered callbacks were called.
  abbrev Keeps : Table → Client J T → Option (Client J T) → Type 0
  Keeps table c result =
      (c' : Client J T) × (es : List (Entry J)) × (result ≡ some c')
      × IsClient c' es table
      × Heard table c c'

  recv_event-Keeps :
      (c : Client J T) (msg : Option J) (es : List (Entry J)) (table : Table)
      → IsClient c es table
      → Keeps table c (recv_event json ev c msg)
  unfolding recv_event
  recv_event-Keeps c msg es table v =
      elim (Option-cases (json_get_string json msg (codes "channel"))) [
        | inl absent ↦ (c, es, rw (recv_event, absent), v, Heard-same table c c refl)
        | inr (channel, got) ↦ elim (Option-cases (json.object_get msg (codes "data"))) [
          | inl absent ↦ (c, es, rw (recv_event, got, absent), v, Heard-same table c c refl)
          | inr (msg_data, found) ↦
              let heard = record c {
                effects = c.effects ++ deliveries channel (json.to_json_string msg_data) table;
              } in
              (
                heard,
                es,
                rw (recv_event, got, found)
                    (channel_deliver-deliveries json c table channel msg_data v.table_held),
                SameCore-IsClient c heard es table
                    (record {
                      outbox = refl;
                      flag = refl;
                      message_id = refl;
                      batch_id = refl;
                      channels = refl;
                      channel_count = refl;
                      channel_capacity = refl;
                    })
                    v,
                (
                  deliveries channel (json.to_json_string msg_data) table,
                  refl,
                  deliveries-ComesFrom channel (json.to_json_string msg_data) table,
                ),
              )
        ]
      ]

  answer_id-Keeps :
      (c : Client J T) (msg : Option J) (id : Option ℕ) (es : List (Entry J)) (table : Table)
      → IsClient c es table
      → Keeps table c (answer_id json ev c msg id)
  unfolding answer_id
  answer_id-Keeps c msg none es table v = (c, es, refl, v, Heard-same table c c refl)
  answer_id-Keeps c msg (some id) es table v =
      elim (answer_id-Answered json ev c msg es id v.queue) [
        | inl (_, ran) ↦ (c, es, ran, v, Heard-same table c c refl)
        | inr (i, e, outbox, at, _, _, ran, gone, q) ↦ (
          record (call_recv json ev e.func c msg) { outbox = outbox },
          erase_idx es i,
          ran,
          answered-IsClient json ev c msg es table e (erase_idx es i) outbox v
              (count_connects-erase_idx es i e at) q,
          Heard-same table c (record (call_recv json ev e.func c msg) { outbox = outbox })
              (call_recv-SameStore json ev e.func c msg).effects,
        )
      ]

  dispatch-Keeps :
      (c : Client J T) (msg msg_data : Option J) (es : List (Entry J)) (table : Table)
      → IsClient c es table
      → Keeps table c (dispatch json ev c msg msg_data)
  unfolding dispatch recv_answer
  dispatch-Keeps c msg none es table v = answer_id-Keeps c msg (json_get_msg_id json msg) es table v
  dispatch-Keeps c msg (some msg_data) es table v = recv_event-Keeps c msg es table v

  on_msg_recv-Keeps :
      (c : Client J T) (msg : Option J) (es : List (Entry J)) (table : Table)
      → IsClient c es table
      → Keeps table c (on_msg_recv json ev c msg)
  unfolding on_msg_recv
  on_msg_recv-Keeps c msg es table v =
      let advised = handle_advice json ev c msg in
      let same = handle_advice-SameStore json ev c msg in
      let (c', es', ran, v', heard) =
        dispatch-Keeps advised msg (json.object_get msg (codes "data")) es table
          (handle_advice-IsClient json ev c msg es table v) in
      (
        c',
        es',
        ran,
        v',
        Heard-trans table c advised c' (Heard-same table c advised same.effects) heard,
      )

  recv_from-Keeps :
      (c : Client J T) (msgs : Option J) (rounds index : ℕ) (es : List (Entry J)) (table : Table)
      → IsClient c es table
      → Keeps table c (recv_from json ev c msgs rounds index)
  unfolding recv_from
  recv_from-Keeps c msgs zero index es table v = (c, es, refl, v, Heard-same table c c refl)
  recv_from-Keeps c msgs (suc rounds) index es table v =
      let (c1, es1, first, v1, h1) =
        on_msg_recv-Keeps c (json.array_get_idx msgs index) es table v in
      let (c2, es2, later, v2, h2) = recv_from-Keeps c1 msgs rounds (index + 1) es1 table v1 in
      (c2, es2, rw (first, ◌>>=◌) later, v2, Heard-trans table c c1 c2 h1 h2)

  finished-effects : (c : Client J T) → (finished json ev c).effects ≡ c.effects
  unfolding finished schedule_flush
  finished-effects c = ground arith

  -- A batch that is an array keeps the invariant.
  pub on_batch_recv-Keeps :
      (c : Client J T) (msgs : Option J) (es : List (Entry J)) (table : Table)
      → IsClient c es table
      → IsArray json msgs
      → Keeps table c (on_batch_recv json ev c msgs)
  unfolding on_batch_recv finished
  on_batch_recv-Keeps c msgs es table v (n, counted) =
      let (c1, es1, ran, v1, h1) = recv_from-Keeps c msgs n 0 es table v in
      (
        finished json ev c1,
        es1,
        rw (counted, ◌>>=◌, ran, ◌>>=◌),
        finished-IsClient json ev c1 es1 table v1,
        Heard-trans table c c1 (finished json ev c1) h1
            (Heard-same table c1 (finished json ev c1) (finished-effects c1)),
      )
