-- ===== src/Tests/Base.antt =====
-- The inputs: a buffer, an outbox, a table of channels and a client.
use libbayeux.Prelude.{refl, true, false, List, [], ◌∷◌, Option, none, some, arith}
use libbayeux.Prelude.Int.{pos}
use libbayeux.Libc.{codes}
use libbayeux.Str.{Str}
use libbayeux.Str.Growth.{IsText}
use libbayeux.Json.Table.{Json, object, field, end, text}
use libbayeux.MsgQueue.{MsgQueue, RecvFunc, batch_id_invalid, msg_id_invalid}
use libbayeux.MsgQueue.Entries.{Entry, IsQueue}
use libbayeux.MsgQueue.Append.{queued}
use libbayeux.Client.{Client, Timers, Timeval, Channel, Subscription, reconnect_retry, connected}
use libbayeux.Client.Channels.Table.{Table, HasTable}

-- a timer is the time that it was set to
abbrev pub clock : Timers (Option Timeval)
clock = record {
  evtimer_new = none;
  evtimer_pending = λ t. elim t [ none ↦ false | some tv ↦ true ];
  evtimer_add = λ t tv. some tv;
}

-- the text "ab" in a block of eight bytes
abbrev pub buffer : Str
buffer = record {
  capacity = 8;
  len = 2;
  buf = some 97 ∷ some 98 ∷ some 0 ∷ none ∷ none ∷ none ∷ none ∷ none ∷ [];
}

pub buffer-IsText : IsText buffer (codes "ab")
buffer-IsText = record {
  size = refl;
  word = omega arith;
  count = refl;
  room = omega arith;
  bytes = (refl, (refl, (refl, tt)));
}

abbrev pub note : Json
note = object (field (codes "channel") (text (codes "/news")) end)

abbrev pub first_entry : Entry Json
first_entry = queued note RecvFunc.recv_publish

-- a connect message in flight
abbrev pub second_entry : Entry Json
second_entry = record { msg = note; batch_id = 3; msg_id = 6; func = RecvFunc.recv_connect }

abbrev pub entries : List (Entry Json)
entries = first_entry ∷ second_entry ∷ []

-- a full outbox
abbrev pub outbox : MsgQueue Json
outbox = record {
  msgs = some note ∷ some note ∷ [];
  batch_ids = some batch_id_invalid ∷ some 3 ∷ [];
  msg_ids = some msg_id_invalid ∷ some 6 ∷ [];
  funcs = some RecvFunc.recv_publish ∷ some RecvFunc.recv_connect ∷ [];
  capacity = 2;
  count = 2;
}

pub outbox-IsQueue : IsQueue outbox entries
outbox-IsQueue = record {
  count = refl;
  within = omega arith;
  msgs = (refl, (refl, tt));
  batch_ids = (refl, (refl, tt));
  msg_ids = (refl, (refl, tt));
  funcs = (refl, (refl, tt));
  msgs_size = refl;
  batch_ids_size = refl;
  msg_ids_size = refl;
  funcs_size = refl;
}

abbrev pub listener : Subscription
listener = record { callback = 1; context = 2 }

abbrev pub news : Channel
news = record {
  name = codes "/news";
  subscriptions = some listener ∷ none ∷ none ∷ none ∷ [];
  capacity = 4;
  count = 1;
}

abbrev pub table : Table
table = (codes "/news", listener ∷ []) ∷ []

abbrev pub session : Client Json (Option Timeval)
session = record {
  advice = record { reconnect = reconnect_retry; interval_ms = pos 5000; timeout_ms = pos 60000 };
  endpoint = codes "/cometd";
  id = some (codes "c1");
  batch_id = 4;
  message_id = 7;
  state = connected;
  ev_timeout_connect = none;
  ev_timeout_flush = none;
  ev_timeout_handshake = none;
  owns_ev_base = true;
  channels = some news ∷ [];
  channel_capacity = 1;
  channel_count = 1;
  outbox = outbox;
  handshake_msg_index = none;
  connect_msg_in_flight = true;
  effects = [];
}

pub session-HasTable : HasTable session table
session-HasTable = record {
  channels = news ∷ [];
  held = (refl, tt);
  count = refl;
  size = refl;
  rows = (
    refl,
    (
      record {
        count = refl;
        within = omega arith;
        size = refl;
        word = omega arith;
        held = (refl, tt);
      },
      refl,
    ),
    tt,
  );
}
