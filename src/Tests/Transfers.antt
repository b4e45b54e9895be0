-- ===== src/Tests/Transfers.antt =====
-- The transport on an instance of libcurl and libevent.
use libbayeux.Prelude.{ℕ, ◌+◌, ◌*◌, ◌<◌, ◌≡◌, refl, [], ◌∷◌, Option, none, some, true, arith}
use libbayeux.Prelude.Int.{pos}
use libbayeux.Libc.{CString, codes}
use libbayeux.Memory.{load}
use libbayeux.Client.{Timeval}
use libbayeux.Transport.{ConnInfo, conn_new}
use libbayeux.Transport.Libs.{CurlMsg, curl_poll_remove}
use libbayeux.Transport.LongPolling.{
  Http, SocketInfo, on_curl_multi_socket, on_curl_multi_timer, check_curl_multi,
}
use libbayeux.Transport.Sockets.{on_curl_multi_socket-socket_destroy, on_curl_multi_timer_lem}
use libbayeux.Transport.Complete.{check_curl_multi-AreBodies}
use libbayeux.Transport.Dispatch.{
  Transport, transport_type_http_long_polling, transport_open, transport_send,
  transport_send-transport_open,
}
use libbayeux.Tests.Libs.{
  Multi, Base, curl_with, curl_with-CurlLaws, waiting, events, events-EventLaws, watched,
}

-- the document of a text is the text itself
abbrev parse : CString → Option CString
parse text = some text

abbrev done : CurlMsg ℕ
done = record { is_done = true; easy_handle = 0 }

abbrev base : Base
base = record { next = 1; made = λ q. none; added = λ q. none }

abbrev socket : SocketInfo
socket = record { sock_fd = 5; action = 1; ev = some 0 }

abbrev http : Http Multi Base (Option Timeval) CString
http = record {
  curl_multi = record { messages = []; socket_data = λ s. none };
  http_headers = [];
  ev_base = base;
  ev_timer = none;
  active_conn_count = pos 1;
  url = codes "/";
  conns = some conn_new ∷ [];
  sockets = some socket ∷ [];
  received = [];
}

-- a transfer that is done, with the body "[]"
abbrev full_conn : ConnInfo
full_conn = record {
  data_block = some 91 ∷ some 93 ∷ some 0 ∷ [];
  data_capacity = 3;
  data_count = 2;
}

abbrev loaded : Http Multi Base (Option Timeval) CString
loaded = record http {
  curl_multi = record { messages = done ∷ []; socket_data = λ s. none };
  conns = some full_conn ∷ [];
}

check_curl_multi-AreBodies_example :
    (http' : Http Multi Base (Option Timeval) CString) × (check_curl_multi
        (curl_with [] [])
        events
        parse
        2
        loaded
      ≡ some http')
    × (http'.received ≡ some (codes "[]") ∷ [])
    × (waiting http'.curl_multi ≡ [])
    × (http'.conns ≡ none ∷ [])
unfolding load
check_curl_multi-AreBodies_example =
    check_curl_multi-AreBodies (curl_with [] []) events parse waiting (curl_with-CurlLaws [] []) 2
      loaded (done ∷ []) (codes "[]" ∷ []) refl
      (
        refl,
        record {
          conn = full_conn;
          at = refl;
          bytes = (refl, (refl, (refl, tt)));
          plain = ((λ e. omega arith), ((λ e. omega arith), tt));
        },
        tt,
        tt,
        tt,
      )
      (omega arith)

on_curl_multi_socket-socket_destroy_example :
    (http' : Http Multi Base (Option Timeval) CString) × (on_curl_multi_socket
        (curl_with [] [])
        events
        http
        5
        curl_poll_remove
        (some 0)
      ≡ some http')
    × (load http'.sockets 0 ≡ none)
    × (watched http'.ev_base 0 ≡ none)
unfolding load
on_curl_multi_socket-socket_destroy_example =
    on_curl_multi_socket-socket_destroy (curl_with [] []) events watched events-EventLaws http 5 0 0
      socket refl

on_curl_multi_timer_lem_example :
    (sec : ℕ) × (usec : ℕ) × (on_curl_multi_timer (curl_with [] []) events http (pos 1500)
      ≡ record http { ev_timer = some (record { sec = pos sec; usec = pos usec }) })
    × (sec * 1000000 + usec ≡ 1500000)
    × (usec < 1000000)
on_curl_multi_timer_lem_example = on_curl_multi_timer_lem (curl_with [] []) events http 1500

transport_send-transport_open_example :
    (t : Transport Multi Base (Option Timeval) CString) × (transport_open CString
        (curl_with [] [])
        events
        (codes "/a")
        transport_type_http_long_polling
        base
      ≡ some t)
    × ((transport_send (curl_with [] []) events t (codes "[]")).long_polling.curl_multi
        ≡ (curl_with [] []).multi_init)
    × ((transport_send (curl_with [] []) events t (codes "[]")).long_polling.conns
        ≡ some conn_new ∷ [])
transport_send-transport_open_example =
    transport_send-transport_open (curl_with [] []) events (codes "/a") (codes "[]") base 0
      (record { messages = []; socket_data = λ s. none }) refl
