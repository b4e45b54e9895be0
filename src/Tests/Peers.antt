-- ===== src/Tests/Peers.antt =====
-- Two responses that arrive mixed, and the events of a peer.
use libbayeux.Prelude.{ℕ, ◌≡◌, refl, List, [], ◌∷◌, Option, none, some, true, arith, inl, map}
use libbayeux.Prelude.Int.{pos}
use libbayeux.Libc.{codes}
use libbayeux.Json.Table.{Json, tree, tree-Laws}
use libbayeux.MsgQueue.Entries.{Entry}
use libbayeux.Client.{Timeval}
use libbayeux.Client.Api.{bayeux_client_create, bayeux_client_opts_defaults}
use libbayeux.Client.Channels.Heard.{Heard}
use libbayeux.Client.System.{publish}
use libbayeux.Transport.{conn_new}
use libbayeux.Transport.Libs.{Curl, CurlCall, socket_call, timer_call, write_call, CurlMsg}
use libbayeux.Transport.LongPolling.{Http, called_back, on_ev_event, event_action}
use libbayeux.Transport.Dispatch.{transport_open, transport_http_long_polling_create}
use libbayeux.Transport.Calls.{Bodies, IsConn, AreConns}
use libbayeux.Transport.SocketCalls.{Kept}
use libbayeux.Transport.Interleave.{AreCalls, called_back-AreConns}
use libbayeux.Transport.Actions.{Acts, on_ev_event-AreConns}
use libbayeux.Peer.{Peer, create_peer, receive_all, socket_ready}
use libbayeux.Client.System.Pending.{IsSession}
use libbayeux.Peer.Respond.{socket_ready-IsSession}
use libbayeux.Peer.System.{PeerReach, created, handle_peer, local, socket_due, IsPeer}
use libbayeux.Peer.System.Safety.{handle_peer-IsPeer, handle_peer-PeerReach}
use libbayeux.Tests.Base.{session, entries, table}
use libbayeux.Tests.Steps.{session-IsClient}
use libbayeux.Tests.Events.{created-IsClient}
use libbayeux.Tests.Libs.{Multi, Base, curl_with, curl_with-CurlLaws, waiting, events}
use libbayeux.Tests.Wire.{idle, polling, base}

-- a socket is opened, and two bodies arrive in turn, of which the second is then complete
abbrev pub mixed : List CurlCall
mixed =
    socket_call 5 1
    ∷ write_call 0 (codes "[") 1 1
    ∷ write_call 1 (codes "[1") 1 2
    ∷ timer_call (pos 1500)
    ∷ write_call 0 (codes "2") 1 1
    ∷ write_call 1 (codes "]") 1 1
    ∷ []

abbrev pub done : CurlMsg ℕ
done = record { is_done = true; easy_handle = 1 }

abbrev pub mixing : Curl Multi ℕ
mixing = curl_with mixed (done ∷ [])

abbrev pub two : Http Multi Base (Option Timeval) Json
two = record idle { conns = some conn_new ∷ some conn_new ∷ [] }

abbrev started : Http Multi Base (Option Timeval) Json
started = record two { curl_multi = record { messages = done ∷ []; socket_data = λ s. none } }

abbrev pub blanks : Bodies
blanks = some [] ∷ some [] ∷ []

conn_new-IsConn : IsConn conn_new []
conn_new-IsConn = record {
  response = record { size = refl; word = omega arith; count = refl; bytes = tt };
  ended = inl refl;
}

pub two-AreConns : AreConns two.conns blanks
two-AreConns = (conn_new-IsConn, (conn_new-IsConn, tt))

mixed-AreCalls : AreCalls mixing events started blanks mixed
mixed-AreCalls = (
  tt,
  (
    ([], refl, omega arith, omega arith),
    (
      ([], refl, omega arith, omega arith),
      (
        tt,
        (
          (codes "[", refl, omega arith, omega arith),
          ((codes "[1", refl, omega arith, omega arith), tt),
        ),
      ),
    ),
  ),
)

called_back-AreConns_example :
    (http' : Http Multi Base (Option Timeval) Json) × (called_back mixing events started mixed
      ≡ some http')
    × AreConns http'.conns (some (codes "[2") ∷ some (codes "[1]") ∷ [])
    × Kept mixing waiting started http'
called_back-AreConns_example =
    called_back-AreConns mixing events waiting (curl_with-CurlLaws mixed (done ∷ [])) started blanks
      mixed two-AreConns mixed-AreCalls

pub mixed-Acts :
    Acts mixing events waiting two blanks (some 5) (event_action 2) (done ∷ []) (codes "[1]" ∷ [])
mixed-Acts = record {
  calls = mixed-AreCalls;
  reported = refl;
  are_done = (
    refl,
    refl,
    (λ e. cc),
    ((λ e. omega arith), ((λ e. omega arith), ((λ e. omega arith), tt))),
    tt,
    tt,
    tt,
  );
}

on_ev_event-AreConns_example :
    (http' : Http Multi Base (Option Timeval) Json) × (on_ev_event mixing events tree.tokener_parse
        2 5 2 two
      ≡ some http')
    × (http'.received ≡ map tree.tokener_parse (codes "[1]" ∷ []))
    × (waiting http'.curl_multi ≡ [])
    × AreConns http'.conns (some (codes "[2") ∷ none ∷ [])
on_ev_event-AreConns_example =
    on_ev_event-AreConns mixing events tree.tokener_parse waiting
      (curl_with-CurlLaws mixed (done ∷ [])) 2 5 2 two blanks (done ∷ []) (codes "[1]" ∷ [])
      two-AreConns mixed-Acts (omega arith)

abbrev busy : Peer Multi Base (Option Timeval) Json
busy = record { client = session; transport = record polling { long_polling = two } }

handle_peer-IsPeer_example :
    (peer' : Peer Multi Base (Option Timeval) Json) × (es' : List (Entry Json)) × (texts' : Bodies)
    × (handle_peer tree mixing events (socket_due 2 5 2) busy ≡ some peer')
    × IsPeer peer' es' table texts'
    × Heard table session peer'.client
handle_peer-IsPeer_example =
    handle_peer-IsPeer tree mixing events waiting tree-Laws (curl_with-CurlLaws mixed (done ∷ []))
      (socket_due 2 5 2) busy entries table blanks
      (record { session = record { client = session-IsClient }; conns = two-AreConns })
      (done ∷ [], codes "[1]" ∷ [], mixed-Acts, ((1, refl), tt), omega arith)

abbrev new_peer : Peer Multi Base (Option Timeval) Json
new_peer = record {
  client = bayeux_client_create Json events.timers (codes "/cometd") bayeux_client_opts_defaults;
  transport = record {
    type_tag = 0;
    long_polling =
        transport_http_long_polling_create Json mixing events base
          (codes "http://localhost:5000/faye");
  };
}

new_peer-PeerReach : PeerReach tree mixing events waiting new_peer
unfolding create_peer transport_open
new_peer-PeerReach = created (codes "/cometd") bayeux_client_opts_defaults base refl

handle_peer-PeerReach_example :
    (peer' : Peer Multi Base (Option Timeval) Json) × (handle_peer tree mixing events
        (local (publish (codes "/news") (codes "1")))
        new_peer
      ≡ some peer')
    × PeerReach tree mixing events waiting peer'
unfolding transport_http_long_polling_create
handle_peer-PeerReach_example =
    handle_peer-PeerReach tree mixing events waiting tree-Laws
      (curl_with-CurlLaws mixed (done ∷ [])) new_peer [] [] []
      (local (publish (codes "/news") (codes "1"))) new_peer-PeerReach created-IsClient.queue
      created-IsClient.table_held tt (tt, tt)

-- the peer gets the document of the response that is complete, and not of the other
socket_ready-IsSession_example :
    (peer' : Peer Multi Base (Option Timeval) Json) × (es' : List (Entry Json)) × (socket_ready tree
        mixing events 2 5 2 busy
      ≡ some peer')
    × (receive_all tree mixing events session (map tree.tokener_parse (codes "[1]" ∷ []))
        ≡ some peer'.client)
    × IsSession peer'.client es' table
    × Heard table session peer'.client
    × AreConns peer'.transport.long_polling.conns (some (codes "[2") ∷ none ∷ [])
socket_ready-IsSession_example =
    socket_ready-IsSession tree mixing events waiting (curl_with-CurlLaws mixed (done ∷ [])) 2 5 2
      busy entries table blanks (done ∷ []) (codes "[1]" ∷ []) two-AreConns mixed-Acts
      ((1, refl), tt) (omega arith) (record { client = session-IsClient })
