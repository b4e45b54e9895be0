-- ===== src/Client/Receive/Resend.antt =====
-- `msg_queue_flush` followed by `on_batch_send_err`.
use libbayeux.Prelude.{◌+◌, ◌^◌, ◌<◌, ◌≡◌, sym, subst, List, [], map, some, length, All}
use libbayeux.Str.{Str}
use libbayeux.Str.Growth.{IsText}
use libbayeux.Json.{JsonC, Laws}
use libbayeux.MsgQueue.Entries.{Entry, IsQueue}
use libbayeux.MsgQueue.Resend.{requeued}
use libbayeux.Client.{Client, Timers}
use libbayeux.Client.Schedule.{schedule_flush}
use libbayeux.Client.Flush.{msg_queue_flush}
use libbayeux.Client.Flush.Spec.{flushed, outgoing, batch_text}
use libbayeux.Client.Flush.Batch.{flushed_client, msg_queue_flush-batch_text}
use libbayeux.Client.Receive.{on_batch_send_err}
use libbayeux.Client.Receive.Lost.{on_batch_send_err-requeued, IsSettled, ids, requeued-flushed}
use libbayeux.Client.Invariant.Steps.{schedule_flush-SameCore}

module _ {J T : Type 0} (json : JsonC J) (ev : Timers T) where
  -- For a well-formed outbox that is not empty, a batch below 2 ^ 32 bytes, and entries that are
  -- queued or in flight in another batch: if the batch of a flush is reported lost, every entry of
  -- the outbox has the batch and message id that it had before the flush, in the same order. The
  -- messages that the flush sent are queued again, and no message that was in flight is.
  pub on_batch_send_err-msg_queue_flush :
      Laws json
      → (s : Str) (c : Client J T) (es : List (Entry J)) → IsText s []
      → IsQueue c.outbox es
      → 0 < length es
      → All (IsSettled c.batch_id) es
      → length (batch_text (outgoing json c.id c.batch_id c.message_id es)) + 2050 < 2 ^ 32
      → (t : Str) × (sent_client : Client J T) × (lost_client : Client J T) × (es' : List (Entry J))
        × (msg_queue_flush json s c ≡ some (t, sent_client))
        × (on_batch_send_err ev sent_client c.batch_id ≡ some lost_client)
        × IsQueue lost_client.outbox es'
        × (map ids es' ≡ map ids es)
  on_batch_send_err-msg_queue_flush laws s c es v q some_entry settled h =
      let (t, outbox, ran, _, q') = msg_queue_flush-batch_text json laws s c es v q some_entry h in
      let sent_es = flushed json c.id c.batch_id c.message_id es in
      let sent_client = flushed_client json c es outbox in
      let (outbox', lost, q'') = on_batch_send_err-requeued ev sent_client sent_es c.batch_id q' in
      let requeued_client = record sent_client { outbox = outbox' } in
      (
        t,
        sent_client,
        schedule_flush ev requeued_client,
        map (requeued c.batch_id) sent_es,
        ran,
        lost,
        subst (λ o. IsQueue o (map (requeued c.batch_id) sent_es))
            (sym (schedule_flush-SameCore ev requeued_client).outbox) q'',
        requeued-flushed json c.id c.batch_id c.message_id es settled,
      )
