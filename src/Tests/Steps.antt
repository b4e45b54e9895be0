-- ===== src/Tests/Steps.antt =====
-- Whole steps of a session, and a batch that is lost.
use libbayeux.Prelude.{
  ◌≡◌, refl, true, List, [], ◌∷◌, ◌++◌, map, Option, none, some, arith, All, inl, inr,
}
use libbayeux.Libc.{codes}
use libbayeux.Str.{Str}
use libbayeux.Str.Growth.{IsText}
use libbayeux.Json.Table.{Json, tree, tree-Laws}
use libbayeux.MsgQueue.{MsgQueue}
use libbayeux.MsgQueue.Entries.{Entry, IsQueue}
use libbayeux.Client.{Client, Timeval, reconnect_retry, unconnected}
use libbayeux.Client.Connect.{issue_connect}
use libbayeux.Client.Receive.{on_batch_send_err}
use libbayeux.Client.Receive.Lost.{ids, IsSettled}
use libbayeux.Client.Receive.Resend.{on_batch_send_err-msg_queue_flush}
use libbayeux.Client.Flush.{msg_queue_flush}
use libbayeux.Client.Flush.Spec.{outgoing, batch_text, flushed}
use libbayeux.Client.Flush.Batch.{flushed_client, msg_queue_flush-batch_text}
use libbayeux.Client.Invariant.{IsClient}
use libbayeux.Client.Invariant.Request.{handshake_request, connect_request, issue_connect-IsClient}
use libbayeux.Tests.Base.{clock, session, session-HasTable, table, entries, outbox-IsQueue}
use libbayeux.Tests.Session.{size}

pub session-IsClient : IsClient session entries table
session-IsClient = record {
  queue = outbox-IsQueue;
  one_connect = refl;
  message_id = omega arith;
  batch_id = omega arith;
  table_held = session-HasTable;
}

issue_connect-IsClient_example :
    (c' : Client Json (Option Timeval)) × (issue_connect tree clock session ≡ some c')
    × IsClient c'
        (entries
          ++ (handshake_request tree clock session
              ++ connect_request tree clock reconnect_retry true))
        table
issue_connect-IsClient_example =
    issue_connect-IsClient tree clock session entries table session-IsClient

abbrev pub offline : Client Json (Option Timeval)
offline = record session { state = unconnected }

-- an empty buffer
abbrev pub blank : Str
blank = record { capacity = 2; len = 0; buf = some 0 ∷ none ∷ [] }

pub blank-IsText : IsText blank []
blank-IsText = record {
  size = refl;
  word = omega arith;
  count = refl;
  room = omega arith;
  bytes = (refl, tt);
}

msg_queue_flush-batch_text_example :
    (t : Str) × (outbox : MsgQueue Json) × (msg_queue_flush tree blank session
      ≡ some (t, flushed_client tree session entries outbox))
    × IsText t (batch_text (outgoing tree (some (codes "c1")) 4 7 entries))
    × IsQueue outbox (flushed tree (some (codes "c1")) 4 7 entries)
msg_queue_flush-batch_text_example =
    msg_queue_flush-batch_text tree tree-Laws blank session entries blank-IsText outbox-IsQueue
      (omega arith) (omega (arith, size))

entries-IsSettled : All (IsSettled 4) entries
entries-IsSettled = (inl (refl, refl), (inr ((λ e. omega arith), (λ e. omega arith)), tt))

on_batch_send_err-msg_queue_flush_example :
    (t : Str) × (sent_client : Client Json (Option Timeval)) × (lost_client : Client Json
      (Option Timeval))
    × (es' : List (Entry Json)) × (msg_queue_flush tree blank session ≡ some (t, sent_client))
    × (on_batch_send_err clock sent_client 4 ≡ some lost_client)
    × IsQueue lost_client.outbox es'
    × (map ids es' ≡ map ids entries)
on_batch_send_err-msg_queue_flush_example =
    on_batch_send_err-msg_queue_flush tree clock tree-Laws blank session entries blank-IsText
      outbox-IsQueue (omega arith) entries-IsSettled (omega (arith, size))
