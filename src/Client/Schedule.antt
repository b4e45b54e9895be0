-- ===== src/Client/Schedule.antt =====
-- src/bayeux.c: the counters of ids, and the timers that the client sets.
use libbayeux.Prelude.{ℕ, ◌+◌, ◌%◌, ◌^◌, ◌==◌, if◌then◌else◌}
use libbayeux.Prelude.Int.{pos, quot, rem}
use libbayeux.MsgQueue.{batch_id_invalid, msg_id_invalid}
use libbayeux.Client.{Client, Timers}

-- `++id`, and once more past the id that stands for none
unfoldable pub bump : ℕ → ℕ → ℕ
bump invalid id =
    let next = (id + 1) % 2 ^ 32 in if next == invalid then (next + 1) % 2 ^ 32 else next

module _ {J T : Type 0} where
  unfoldable pub next_batch_id : Client J T → ℕ × Client J T
  unfolding bump
  next_batch_id client =
      (client.batch_id, record client { batch_id = bump batch_id_invalid client.batch_id })

  unfoldable pub next_message_id : Client J T → ℕ × Client J T
  unfolding bump
  next_message_id client =
      (client.message_id, record client { message_id = bump msg_id_invalid client.message_id })

  -- The interval, in milliseconds, is split as if it were in microseconds.
  unfoldable pub schedule_connect : Timers T → Client J T → Client J T
  schedule_connect ev client =
      if ev.evtimer_pending client.ev_timeout_connect then client else record client {
        ev_timeout_connect = ev.evtimer_add client.ev_timeout_connect (record {
          sec = quot client.advice.interval_ms 1000000;
          usec = rem client.advice.interval_ms 1000000;
        });
      }

  unfoldable pub schedule_flush : Timers T → Client J T → Client J T
  schedule_flush ev client =
      if ev.evtimer_pending client.ev_timeout_flush then client else record client {
        ev_timeout_flush =
            ev.evtimer_add client.ev_timeout_flush (record { sec = pos 0; usec = pos 0 });
      }
