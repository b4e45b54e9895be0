-- ===== src/Transport/Close.antt =====
-- The end of a transport: `transport_http_long_polling_destroy` and `transport_close`.
use libbayeux.Prelude.{Option, some, ◌==◌, if◌then◌else◌, ◌>>=◌}
use libbayeux.Memory.{Block}
use libbayeux.Transport.{ConnInfo}
use libbayeux.Transport.Libs.{Curl, Events}
use libbayeux.Transport.LongPolling.{Http, SocketInfo, called_back}
use libbayeux.Transport.Dispatch.{Transport, transport_type_http_long_polling}

-- What is left when the transport's own memory is given back: libcurl, libevent with the deleted
-- timer, and the objects that nothing frees.
pub record Remains (M E T : Type 0) : Type 0 where
  pub curl_multi : M
  pub ev_base : E
  pub ev_timer : T
  pub conns : Block ConnInfo
  pub sockets : Block SocketInfo

module _ {M K E T J : Type 0} (curl : Curl M K) (ev : Events E T) where
  unfoldable pub transport_http_long_polling_destroy : Http M E T J → Option (Remains M E T)
  unfolding called_back
  transport_http_long_polling_destroy http = do
    let (calls, multi) = curl.multi_cleanup http.curl_multi
    closed ← called_back curl ev (record http { curl_multi = multi }) calls
    some (record {
      curl_multi = closed.curl_multi;
      ev_base = closed.ev_base;
      ev_timer = ev.evtimer_del closed.ev_timer;
      conns = closed.conns;
      sockets = closed.sockets;
    })

  -- A transport of another type has nothing but its block to give back.
  unfoldable pub transport_close : Transport M E T J → Option (Remains M E T)
  unfolding transport_http_long_polling_destroy
  transport_close transport =
      let http = transport.long_polling in
      let other : Remains M E T = record {
        curl_multi = http.curl_multi;
        ev_base = http.ev_base;
        ev_timer = http.ev_timer;
        conns = http.conns;
        sockets = http.sockets;
      } in
      if transport.type_tag == transport_type_http_long_polling
      then transport_http_long_polling_destroy http
      else some other
