-- ===== src/Client/Flush/Freed.antt =====
-- `handshake_msg_index` when the message that it names has been taken out of the outbox.
use libbayeux.Str.{Str}
use libbayeux.Json.{JsonC}
use libbayeux.MsgQueue.{MsgQueue, batch_id_invalid}
use libbayeux.Client.{Client}
use libbayeux.Client.Schedule.{bump}

module _ {J T : Type 0} (json : JsonC J) where
  -- the batch id of the one message is taken first
  abbrev next_batch : Client J T → Client J T
  next_batch c = record c { batch_id = bump batch_id_invalid c.batch_id }
