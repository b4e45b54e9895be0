-- ===== src/Tests/Sample.antt =====
-- The sample: its messages, an event on a channel of its own, and a whole run.
use libbayeux.Prelude.{
  sym, ap, subst, ◌^◌, ◌+◌, ℕ, ◌<◌, length, ◌≡◌, refl, List, [], ◌∷◌, ◌++◌, Option, none, some,
  arith, All, true,
}
use libbayeux.Libc.{CString, codes}
use libbayeux.Libc.Decimal.{read_digits, IsDigit}
use libbayeux.Log.{log_info, format2, log_info-line}
use libbayeux.Json.{JsonC, Laws}
use libbayeux.Json.Table.{Json, array, item, nil, object, field, end, text, tree, tree-Laws}
use libbayeux.MsgQueue.{RecvFunc}
use libbayeux.MsgQueue.Append.{queued}
use libbayeux.MsgQueue.Entries.{Entry}
use libbayeux.Client.{Client, Channel, Timeval, Subscription}
use libbayeux.Client.Messages.{make_publish}
use libbayeux.Client.Invariant.{IsClient}
use libbayeux.Client.Invariant.Calls.{called_with}
use libbayeux.Client.Channels.Table.{HasTable}
use libbayeux.Transport.Libs.{Curl}
use libbayeux.Transport.Calls.{Bodies}
use libbayeux.Peer.System.{socket_due}
use libbayeux.Peer.Close.{Left}
use libbayeux.PingPong.{
  Game, peer_due, ping_due, ping_subscription, pong_subscription, send_ping, handle_game, start,
  dispatch, main,
}
use libbayeux.PingPong.Message.{send_ping-queued}
use libbayeux.PingPong.Callbacks.{game_table}
use libbayeux.PingPong.Play.{IsGame, handle_game-IsGame}
use libbayeux.PingPong.Run.{AreAdmitted, start-IsGame, main-AreAdmitted}
use libbayeux.Tests.Base.{clock, session, entries, outbox-IsQueue}
use libbayeux.Tests.Libs.{Multi, Base, curl_with, curl_with-CurlLaws, waiting, events}
use libbayeux.Tests.Wire.{polling, base}
use libbayeux.Tests.Peers.{mixed, done, mixing, two, blanks, two-AreConns, mixed-Acts}

-- documents, each an event on "/ping"
abbrev pinged : JsonC Json
pinged = record tree {
  tokener_parse = λ s. some (
      array (
        item
          (object
            (field (codes "channel") (text (codes "/ping")) (field (codes "data") (text s) end)))
          nil));
}

pinged-Laws : Laws pinged
pinged-Laws = record {
  object-new = tree-Laws.object-new;
  object-add = tree-Laws.object-add;
  get-add = tree-Laws.get-add;
  get-null = tree-Laws.get-null;
  string-new = tree-Laws.string-new;
  text-nonempty = tree-Laws.text-nonempty;
  get_string-new = tree-Laws.get_string-new;
}

abbrev row : CString → Subscription → Channel
row name sub = record {
  name = name;
  subscriptions = some sub ∷ none ∷ none ∷ none ∷ [];
  capacity = 4;
  count = 1;
}

-- the client of the sample
abbrev player : Client Json (Option Timeval)
player = record session {
  channels =
      some (row (codes "/ping") ping_subscription)
      ∷ some (row (codes "/pong") pong_subscription)
      ∷ [];
  channel_capacity = 2;
  channel_count = 2;
}

player-HasTable : HasTable player game_table
player-HasTable = record {
  channels = row (codes "/ping") ping_subscription ∷ row (codes "/pong") pong_subscription ∷ [];
  held = (refl, (refl, tt));
  count = refl;
  size = refl;
  rows = (
    refl,
    (
      record {
        count = refl;
        within = omega arith;
        size = refl;
        word = omega arith;
        held = (refl, tt);
      },
      refl,
    ),
    (
      refl,
      (
        record {
          count = refl;
          within = omega arith;
          size = refl;
          word = omega arith;
          held = (refl, tt);
        },
        refl,
      ),
      tt,
    ),
  );
}

player-IsClient : IsClient player entries game_table
player-IsClient = record {
  queue = outbox-IsQueue;
  one_connect = refl;
  message_id = omega arith;
  batch_id = omega arith;
  table_held = player-HasTable;
}

abbrev game : Game Multi Base (Option Timeval) Json
game = record {
  peer = record { client = player; transport = record polling { long_polling = two } };
  ev_timer_ping = none;
  ev_timer_pong = none;
  ping_count = 12;
  pong_count = 11;
  output = [];
}

send_ping-queued_example :
    (game' : Game Multi Base (Option Timeval) Json) × (digits : CString) × (send_ping tree mixing
        events game
      ≡ some game')
    × (read_digits 0 digits ≡ 12)
    × All IsDigit digits
    × (game'.ping_count ≡ 13)
    × IsClient game'.peer.client
        (called_with tree clock player entries (
          queued
            (make_publish tree (codes "/ping") (codes "{\"ping\": " ++ (digits ++ codes "}")))
            RecvFunc.recv_publish))
        game_table
send_ping-queued_example =
    send_ping-queued tree mixing events game entries game_table player-IsClient (omega arith)

game-IsGame : IsGame game entries blanks
game-IsGame = record {
  peer = record { session = record { client = player-IsClient }; conns = two-AreConns };
  ping_int = omega arith;
  pong_int = omega arith;
}

handle_game-IsGame_example :
    (game' : Game Multi Base (Option Timeval) Json) × (es' : List (Entry Json)) × (texts' : Bodies)
    × (handle_game pinged mixing events (peer_due (socket_due 2 5 2)) game ≡ some game')
    × IsGame game' es' texts'
handle_game-IsGame_example =
    handle_game-IsGame pinged mixing events waiting pinged-Laws
      (curl_with-CurlLaws mixed (done ∷ [])) (peer_due (socket_due 2 5 2)) game entries blanks
      game-IsGame (tt, (done ∷ [], codes "[1]" ∷ [], mixed-Acts, ((1, refl), tt), omega arith))

abbrev quiet : Curl Multi ℕ
quiet = curl_with [] []

-- the sample behind its first message
abbrev started : Game Multi Base (Option Timeval) Json
started =
    (start-IsGame tree quiet events waiting tree-Laws (curl_with-CurlLaws [] [])
      (codes "pingpong" ∷ []) base).0

abbrev started_entries : List (Entry Json)
started_entries =
    (start-IsGame tree quiet events waiting tree-Laws (curl_with-CurlLaws [] [])
      (codes "pingpong" ∷ []) base).1

abbrev started_texts : Bodies
started_texts =
    (start-IsGame tree quiet events waiting tree-Laws (curl_with-CurlLaws [] [])
      (codes "pingpong" ∷ []) base).2

started_ran : start tree quiet events (codes "pingpong" ∷ []) base ≡ some started
started_ran =
    (start-IsGame tree quiet events waiting tree-Laws (curl_with-CurlLaws [] [])
      (codes "pingpong" ∷ []) base).3

started-IsGame : IsGame started started_entries started_texts
started-IsGame =
    (start-IsGame tree quiet events waiting tree-Laws (curl_with-CurlLaws [] [])
      (codes "pingpong" ∷ []) base).4

started_room : started.ping_count + 1 < 2 ^ 31
started_room = omega (
  arith,
  (start-IsGame tree quiet events waiting tree-Laws (curl_with-CurlLaws [] [])
      (codes "pingpong" ∷ []) base).5,
)

-- the timer for the next ping fires once
started-AreAdmitted : AreAdmitted tree quiet events waiting started (ping_due ∷ [])
started-AreAdmitted =
    let (game', _, texts', ran, v) =
      handle_game-IsGame tree quiet events waiting tree-Laws (curl_with-CurlLaws [] []) ping_due
        started started_entries started_texts started-IsGame started_room in
    (
      started_entries,
      started_texts,
      started-IsGame.peer.session.client.queue,
      started-IsGame.peer.conns,
      started_room,
      subst
          (λ (g : Game Multi Base (Option Timeval) Json).
            AreAdmitted tree quiet events waiting g [])
          (sym (
            ap
              (λ (r : Option (Game Multi Base (Option Timeval) Json)). elim r [
                | none ↦ started
                | some g ↦ g
              ])
              ran))
          (texts', v.peer.conns, tt),
    )

main-AreAdmitted_example :
    (played : Game Multi Base (Option Timeval) Json) × (left : Left Multi Base
      (Option Timeval)
      Json)
    × (dispatch tree quiet events (ping_due ∷ []) started ≡ some played)
    × (main tree quiet events (codes "pingpong" ∷ []) base (ping_due ∷ []) true
        ≡ some (played.output ++ (codes "exiting ..." ∷ []), some left))
main-AreAdmitted_example =
    main-AreAdmitted tree quiet events waiting tree-Laws (curl_with-CurlLaws [] [])
      (codes "pingpong" ∷ []) base (ping_due ∷ []) true started started_ran started-AreAdmitted

log_info-line_example :
    (log_info (λ f (args : ℕ). f) (codes "recv") 0 [] ≡ codes "recv\n" ∷ [])
    × (length (format2 (codes "recv")) < 512)
log_info-line_example = log_info-line (λ f (args : ℕ). f) (codes "recv") 0 []
