-- ===== src/Client/Flush/Assign.antt =====
-- `assign_ids`, over the list of entries.
use libbayeux.Prelude.{ℕ, ◌≡◌, refl, List, ◌∷◌, ◌++◌, some, length, ◌>>=◌}
use libbayeux.Memory.{load}
use libbayeux.Json.{JsonC}
use libbayeux.MsgQueue.{MsgQueue, msg_id_invalid}
use libbayeux.MsgQueue.Entries.{Entry, IsQueue}
use libbayeux.MsgQueue.Update.{load_at, Rewrites, rewrite_entry}
use libbayeux.Client.{Client}
use libbayeux.Client.Schedule.{bump}
use libbayeux.Client.Messages.{json_set_msg_id}
use libbayeux.Client.Flush.{assign_ids}
use libbayeux.Client.Flush.Spec.{stamped}

module _ {J T : Type 0} (json : JsonC J) where
  assign_steps :
      (c : Client J T) (batch : ℕ) (before : List (Entry J)) (e : Entry J) (rest : List (Entry J))
      (i : ℕ)
      → load c.outbox.msgs i ≡ some e.msg
      → (w : Rewrites c.outbox before (stamped json c.id batch c.message_id e) rest i)
      → assign_ids json c batch i
        ≡ some (
          (stamped json c.id batch c.message_id e).msg,
          record c {
            message_id = bump msg_id_invalid c.message_id;
            outbox = record c.outbox {
              msgs = w.msgs;
              batch_ids = w.batch_ids;
              msg_ids = w.msg_ids;
            };
          },
        )
  unfolding assign_ids json_set_msg_id
  assign_steps c batch before e rest i read w =
      rw (read, ◌>>=◌, w.stores_msg_id, ◌>>=◌, w.stores_msg, ◌>>=◌, w.stores_batch_id, ◌>>=◌) refl

  -- The entry is stamped, the counter moves on, and the rest of the client stays.
  pub assign_ids-stamped :
      (c : Client J T) (batch : ℕ) (before : List (Entry J)) (e : Entry J) (rest : List (Entry J))
      → IsQueue c.outbox (before ++ (e ∷ rest))
      → (outbox : MsgQueue J) × (assign_ids json c batch (length before)
          ≡ some (
            (stamped json c.id batch c.message_id e).msg,
            record c { message_id = bump msg_id_invalid c.message_id; outbox = outbox },
          ))
        × IsQueue outbox (before ++ (stamped json c.id batch c.message_id e ∷ rest))
  assign_ids-stamped c batch before e rest v =
      let new = stamped json c.id batch c.message_id e in
      let w = rewrite_entry c.outbox before e new rest v refl in
      (
        record c.outbox { msgs = w.msgs; batch_ids = w.batch_ids; msg_ids = w.msg_ids },
        assign_steps c batch before e rest (length before)
            (load_at (λ (e : Entry J). e.msg) before e rest c.outbox.msgs v.msgs) w,
        w.is_queue,
      )
