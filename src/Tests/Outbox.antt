-- ===== src/Tests/Outbox.antt =====
-- The outbox.
use libbayeux.Prelude.{ℕ, ◌≡◌, ◌≢◌, [], ◌∷◌, Option, some, arith}
use libbayeux.Json.Table.{Json}
use libbayeux.MsgQueue.{
  MsgQueue, RecvFunc, msg_queue_push, msg_queue_remove_ordered, msg_queue_find_by_msg_id,
}
use libbayeux.MsgQueue.Entries.{IsQueue}
use libbayeux.MsgQueue.Append.{queued, msg_queue_push-append}
use libbayeux.MsgQueue.Remove.{msg_queue_remove_ordered-erase_idx}
use libbayeux.MsgQueue.Search.{Answers, msg_queue_find_by_msg_id-Answers}
use libbayeux.Client.Schedule.{next_message_id}
use libbayeux.Client.Ids.{IsId, ids_taken, next_message_id-fresh}
use libbayeux.Tests.Base.{note, entries, outbox, outbox-IsQueue, first_entry, second_entry, session}

msg_queue_push-append_example :
    (q : MsgQueue Json) × (msg_queue_push outbox note RecvFunc.recv_subscribe ≡ some (2, q))
    × IsQueue q (first_entry ∷ second_entry ∷ queued note RecvFunc.recv_subscribe ∷ [])
msg_queue_push-append_example =
    msg_queue_push-append outbox entries note RecvFunc.recv_subscribe outbox-IsQueue

msg_queue_remove_ordered-erase_idx_example :
    (q : MsgQueue Json) × (msg_queue_remove_ordered outbox 0 ≡ some q)
    × IsQueue q (second_entry ∷ [])
msg_queue_remove_ordered-erase_idx_example =
    msg_queue_remove_ordered-erase_idx outbox entries 0 outbox-IsQueue (omega arith)

msg_queue_find_by_msg_id-Answers_example :
    (r : Option ℕ) × (msg_queue_find_by_msg_id outbox 6 ≡ some r) × Answers entries 6 r
msg_queue_find_by_msg_id-Answers_example =
    msg_queue_find_by_msg_id-Answers outbox entries 6 outbox-IsQueue

next_message_id-fresh_example :
    ((next_message_id (ids_taken 100 session)).0 ≡ 107)
    × IsId (next_message_id (ids_taken 100 session)).0
    × ((next_message_id (ids_taken 100 session)).0 ≢ 7)
unfolding next_message_id
next_message_id-fresh_example =
    next_message_id-fresh session 100 (omega arith) (omega arith) (omega arith)
