-- ===== src/Tests/Events.antt =====
-- A session of several events, and a handshake.
use libbayeux.Prelude.{◌≡◌, refl, true, [], ◌∷◌, ◌++◌, Option, some, List, arith, length}
use libbayeux.Libc.{
  codes, print_hex, hex_digits, strtoul_hex, scan_hex, str_eq, signed_hex, skip_space, is_space,
  saturate, skip_prefix, hex_value, hex_digit,
}
use libbayeux.Memory.{load}
use libbayeux.Str.{Str}
use libbayeux.Str.Growth.{IsText}
use libbayeux.Json.Table.{Json, object, field, end, text, bool, print, tree, tree-Laws}
use libbayeux.Json.Util.{json_get_string, json_get_bool, json_set_string, json_set_object}
use libbayeux.MsgQueue.Append.{queued}
use libbayeux.MsgQueue.{MsgQueue, RecvFunc, msg_id_invalid, batch_id_invalid}
use libbayeux.MsgQueue.Entries.{Entry, IsQueue}
use libbayeux.Client.{Client, Timeval, sent}
use libbayeux.Client.Messages.{json_get_msg_id, json_make_supported_conn_types, make_handshake}
use libbayeux.Client.Flush.{set_client_id, msg_queue_flush_one, on_ev_timeout_flush}
use libbayeux.Client.Flush.Spec.{batch_text}
use libbayeux.Client.Flush.Single.{
  at_index, sent_message, sent_entry, sent_client, msg_queue_flush_one-sent,
}
use libbayeux.Client.Receive.{on_msg_recv}
use libbayeux.Client.Api.{
  bayeux_client_create, bayeux_client_opts_defaults, on_ev_timeout_handshake,
}
use libbayeux.Client.Channels.Registry.{Subscribes, channels_subscribe-subscribed}
use libbayeux.Client.Invariant.{IsClient}
use libbayeux.Client.Invariant.Calls.{bayeux_client_create-IsClient}
use libbayeux.Client.System.{subscribe, handle, Reach, start}
use libbayeux.Client.System.Safety.{handle-Reach}
use libbayeux.Client.System.Answer.{Connected}
use libbayeux.Client.System.Handshake.{on_msg_recv-issue_handshake}
use libbayeux.Tests.Base.{
  clock, session, session-HasTable, table, entries, outbox-IsQueue, note, second_entry, listener,
}
use libbayeux.Tests.Steps.{offline, blank, blank-IsText}

channels_subscribe-subscribed_example : Subscribes session (codes "/news") listener table
unfolding str_eq
channels_subscribe-subscribed_example =
    channels_subscribe-subscribed session (codes "/news") listener table session-HasTable
      (omega arith)

abbrev pub created : Client Json (Option Timeval)
created = bayeux_client_create Json clock (codes "/cometd") bayeux_client_opts_defaults

pub created-IsClient : IsClient created [] []
created-IsClient =
    bayeux_client_create-IsClient Json clock (codes "/cometd") bayeux_client_opts_defaults

handle-Reach_example :
    (c' : Client Json (Option Timeval)) × (handle tree clock
        (subscribe (codes "/news") listener)
        created
      ≡ some c')
    × Reach tree clock c'
handle-Reach_example =
    handle-Reach tree clock tree-Laws created [] [] (subscribe (codes "/news") listener)
      (start (codes "/cometd") bayeux_client_opts_defaults) created-IsClient.queue
      created-IsClient.table_held (omega arith)

one_size : length (print (sent_message tree (some (codes "c1")) 7 note)) ≡ 45
unfolding print set_client_id json_set_string print_hex hex_digits str_eq hex_digit
one_size = refl

msg_queue_flush_one-sent_example :
    (t : Str) × (msg_queue_flush_one tree blank session 0
      ≡ some (t, sent_client tree session 0 note))
    × IsText t (batch_text (print (sent_message tree (some (codes "c1")) 7 note) ∷ []))
    × IsQueue
        (sent_client tree session 0 note).outbox
        (at_index (sent_entry (sent_message tree (some (codes "c1")) 7 note) 4 7) entries 0)
unfolding load
msg_queue_flush_one-sent_example =
    msg_queue_flush_one-sent tree blank session entries 0 note blank-IsText outbox-IsQueue
      (omega arith) refl refl (omega (arith, one_size))

-- a handshake that is queued behind the others
abbrev handshake_entries : List (Entry Json)
handshake_entries = second_entry ∷ queued note RecvFunc.recv_handshake ∷ []

abbrev queued_handshake : Client Json (Option Timeval)
queued_handshake = record session {
  outbox = record {
    msgs = some note ∷ some note ∷ [];
    batch_ids = some 3 ∷ some batch_id_invalid ∷ [];
    msg_ids = some 6 ∷ some msg_id_invalid ∷ [];
    funcs = some RecvFunc.recv_connect ∷ some RecvFunc.recv_handshake ∷ [];
    capacity = 2;
    count = 2;
  };
  handshake_msg_index = some 1;
}

handshake_size :
    length (print (sent_message tree (some (codes "c1")) 7 (make_handshake tree))) ≡ 116
unfolding print set_client_id json_set_string print_hex hex_digits str_eq hex_digit make_handshake
    json_make_supported_conn_types json_set_object
handshake_size = refl

abbrev pub acceptance : Json
acceptance = object (
    field (codes "id") (text (codes "7")) (
      field (codes "channel") (text (codes "/meta/handshake")) (
        field (codes "successful") (bool true) (field (codes "clientId") (text (codes "c9")) end))))

abbrev accepted : Option Json
accepted = some acceptance

accepted_id : json_get_msg_id tree accepted ≡ some 7
unfolding json_get_msg_id json_get_string strtoul_hex scan_hex str_eq signed_hex skip_space is_space
    saturate skip_prefix hex_value
accepted_id = refl

on_msg_recv-issue_handshake_example :
    (c1 : Client Json (Option Timeval)) × (c2 : Client Json (Option Timeval)) × (c3 : Client Json
      (Option Timeval))
    × (t : Str) × (on_ev_timeout_handshake tree clock offline ≡ some c1)
    × (on_ev_timeout_flush tree c1 ≡ some c2)
    × (c2.effects ≡ c1.effects ++ (sent t ∷ []))
    × IsText t
        (batch_text (print (sent_message tree (some (codes "c1")) 7 (make_handshake tree)) ∷ []))
    × (on_msg_recv tree clock c2 accepted ≡ some c3)
    × Connected c3 (codes "c9")
    × IsQueue c3.outbox entries
unfolding str_eq json_get_string json_get_bool
on_msg_recv-issue_handshake_example =
    on_msg_recv-issue_handshake tree clock offline entries accepted (codes "c9") outbox-IsQueue refl
      refl ((λ e. omega arith), ((λ e. omega arith), tt)) (omega (arith, handshake_size)) refl
      accepted_id refl refl refl
