-- ===== src/Tests/Session.antt =====
-- The client in a session.
use libbayeux.Prelude.{◌≡◌, refl, [], ◌∷◌, Option, some, arith, length}
use libbayeux.Libc.{
  codes, print_hex, hex_digits, strtoul_hex, scan_hex, str_eq, signed_hex, skip_space, is_space,
  saturate, skip_prefix, hex_value, hex_digit,
}
use libbayeux.Str.{Str}
use libbayeux.Str.Growth.{IsText}
use libbayeux.Json.Table.{Json, object, field, end, text, print, tree, tree-Laws}
use libbayeux.Json.Util.{json_get_string, json_set_string}
use libbayeux.MsgQueue.{MsgQueue}
use libbayeux.MsgQueue.Entries.{IsQueue}
use libbayeux.Client.{sent}
use libbayeux.Client.Messages.{json_get_msg_id}
use libbayeux.Client.{reconnect_none}
use libbayeux.Client.Connect.{handle_advice, match_reconnect, reconnect_strs, or_else}
use libbayeux.Client.Connect.Advised.{word_advice, match_reconnect_lem}
use libbayeux.Client.Receive.{on_msg_recv}
use libbayeux.Client.Receive.Answer.{Answered, on_msg_recv-Answered}
use libbayeux.Client.Schedule.{bump}
use libbayeux.Client.Flush.{set_client_id, on_ev_timeout_flush}
use libbayeux.Client.Flush.Spec.{outgoing, batch_text, flushed, stamped}
use libbayeux.Client.Flush.Batch.{flushed_client, on_ev_timeout_flush-sent}
use libbayeux.Client.Flush.Correlate.{json_get_msg_id-stamped}
use libbayeux.Tests.Base.{clock, session, entries, outbox-IsQueue, first_entry}

pub size : length (batch_text (outgoing tree (some (codes "c1")) 4 7 entries)) ≡ 47
unfolding outgoing print set_client_id json_set_string print_hex hex_digits str_eq bump
size = refl

on_ev_timeout_flush-sent_example :
    (t : Str) × (outbox : MsgQueue Json) × (on_ev_timeout_flush tree session
      ≡ some (record (flushed_client tree session entries outbox) { effects = sent t ∷ [] }))
    × IsText t (batch_text (outgoing tree (some (codes "c1")) 4 7 entries))
    × IsQueue outbox (flushed tree (some (codes "c1")) 4 7 entries)
on_ev_timeout_flush-sent_example =
    on_ev_timeout_flush-sent tree tree-Laws session entries outbox-IsQueue refl (omega arith)
      (omega (arith, size))

abbrev pub answer : Json
answer = object (field (codes "id") (text (codes "7")) end)

same_id :
    json_get_string tree (some answer) (codes "id")
    ≡ json_get_string tree
        (some (stamped tree (some (codes "c1")) 4 7 first_entry).msg)
        (codes "id")
unfolding set_client_id json_get_string json_set_string print_hex hex_digits str_eq hex_digit
same_id = refl

json_get_msg_id-stamped_example : json_get_msg_id tree (some answer) ≡ some 7
json_get_msg_id-stamped_example =
    json_get_msg_id-stamped tree tree-Laws (some (codes "c1")) 4 7 first_entry (some answer) refl
      (omega arith) same_id

abbrev reply : Option Json
reply = some (object (field (codes "id") (text (codes "6")) end))

reply_id : json_get_msg_id tree reply ≡ some 6
unfolding json_get_msg_id json_get_string strtoul_hex scan_hex str_eq signed_hex skip_space is_space
    saturate skip_prefix hex_value
reply_id = refl

on_msg_recv-Answered_example :
    Answered tree clock
      (handle_advice tree clock session reply)
      reply
      entries
      6
      (on_msg_recv tree clock session reply)
unfolding str_eq
on_msg_recv-Answered_example =
    on_msg_recv-Answered tree clock session reply entries 6 outbox-IsQueue refl reply_id

match_reconnect_lem_example :
    match_reconnect reconnect_strs (codes "none") reconnect_none
    ≡ or_else (word_advice (codes "none")) reconnect_none
match_reconnect_lem_example = match_reconnect_lem (codes "none") reconnect_none
