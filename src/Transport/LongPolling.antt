-- ===== src/Transport/LongPolling.antt =====
-- src/transport_http_long_polling.c: the transport, its sockets and its requests.
--
-- The objects that the code allocates are the cells of `conns` and `sockets`, in the order of their
-- allocation; a pointer is an index, and a cell is `none` after `free`. `received` lists what
-- `recv_callback` was called with. `none` is undefined behaviour. What is only logged is left out.
use libbayeux.Prelude.{
  ℕ, zero, suc, Bool, false, List, [], ◌∷◌, ◌++◌, Option, none, some, length, set, bit_and, bit_or,
  not, ltb, ◌&&◌, ◌==◌, if◌then◌else◌, ◌>>=◌,
}
use libbayeux.Prelude.Int.{ℤ, pos, negsuc, quot, rem, scale}
use libbayeux.Libc.{CString}
use libbayeux.Memory.{Block, load, store}
use libbayeux.Transport.{ConnInfo, conn_new, on_curl_write}
use libbayeux.Transport.Libs.{
  Curl, CurlMsg, CurlCall, socket_call, timer_call, write_call, Events, Options, curl_poll_in,
  curl_poll_out, curl_poll_remove, curl_cselect_in, curl_cselect_out, ev_read, ev_write, ev_persist,
}

-- `free(p)` of an object: a read of it from then on, and a second `free`, are undefined.
unfoldable pub release {ℓ} : {A : Type ℓ} → Block A → ℕ → Option (Block A)
release objects p = do _ ← load objects p; some (set objects p none)

-- The text at a pointer, up to its 0; a null pointer is the empty block.
unfoldable pub c_string : Block ℕ → Option CString
c_string [] = none
c_string (none ∷ block) = none
c_string (some c ∷ block) =
    let rest = c_string block >>= λ text. some (c ∷ text) in if c == 0 then some [] else rest

pub record SocketInfo : Type 0 where
  pub sock_fd : ℕ
  pub action : ℕ
  pub ev : Option ℕ

-- `TransportHttpLongPolling`, with the objects that it has allocated
pub record Http (M E T J : Type 0) : Type 0 where
  pub curl_multi : M
  pub http_headers : List CString
  pub ev_base : E
  pub ev_timer : T
  pub active_conn_count : ℤ
  pub url : CString
  pub conns : Block ConnInfo
  pub sockets : Block SocketInfo
  pub received : List (Option J)

unfoldable pub socket_kind : ℕ → ℕ
socket_kind what =
    let kind = if bit_and what curl_poll_in == 0 then ev_persist else bit_or ev_persist ev_read in
    if bit_and what curl_poll_out == 0 then kind else bit_or kind ev_write

unfoldable pub event_action : ℕ → ℕ
event_action kind =
    let action = if bit_and kind ev_read == 0 then 0 else bit_or 0 curl_cselect_in in
    if bit_and kind ev_write == 0 then action else bit_or action curl_cselect_out

abbrev pub is_positive : ℤ → Bool
is_positive (pos n) = ltb 0 n
is_positive (negsuc n) = false

module _ {E T : Type 0} (ev : Events E T) where
  -- `if (sock->ev) event_del(sock->ev)`
  abbrev pub del_event : Option ℕ → E → E
  del_event none base = base
  del_event (some event) base = ev.event_del base event

module _ {M K E T J : Type 0} (curl : Curl M K) (ev : Events E T) where
  unfoldable pub socket_set : Http M E T J → ℕ → ℕ → ℕ → Option (Http M E T J)
  unfolding socket_kind
  socket_set http sock sock_fd what = do
    info ← load http.sockets sock
    let (event, base) = ev.event_new (del_event ev info.ev http.ev_base) sock_fd (socket_kind what)
    sockets ← store http.sockets sock (record { sock_fd = sock_fd; action = what; ev = some event })
    some (record http { ev_base = ev.event_add base event; sockets = sockets })

  unfoldable pub socket_create : Http M E T J → ℕ → ℕ → Option (Http M E T J)
  unfolding socket_set
  socket_create http s what = do
    let sock = length http.sockets
    let zeroed : SocketInfo = record { sock_fd = 0; action = 0; ev = none }
    http' ← socket_set (record http { sockets = http.sockets ++ (some zeroed ∷ []) }) sock s what
    some (record http' { curl_multi = curl.multi_assign http'.curl_multi s sock })

  unfoldable pub socket_destroy : Http M E T J → Option ℕ → Option (Http M E T J)
  unfolding release
  socket_destroy http none = some http
  socket_destroy http (some sock) = do
    info ← load http.sockets sock
    sockets ← release http.sockets sock
    some (record http { ev_base = del_event ev info.ev http.ev_base; sockets = sockets })

  -- The branch for a socket that stays.
  unfoldable pub socket_update : Http M E T J → ℕ → ℕ → Option ℕ → Option (Http M E T J)
  unfolding socket_create socket_set
  socket_update http s what none = socket_create http s what
  socket_update http s what (some sock) = socket_set http sock s what

  unfoldable pub on_curl_multi_socket : Http M E T J → ℕ → ℕ → Option ℕ → Option (Http M E T J)
  unfolding socket_destroy socket_update
  on_curl_multi_socket http s what sock =
      if what == curl_poll_remove then socket_destroy http sock else socket_update http s what sock

  unfoldable pub on_curl_multi_timer : Http M E T J → ℤ → Http M E T J
  on_curl_multi_timer http timeout_ms = record http {
    ev_timer =
        ev.timers.evtimer_add http.ev_timer
          (record { sec = quot timeout_ms 1000; usec = scale (rem timeout_ms 1000) 1000 });
  }

  -- The timer's callback, if libcurl calls it.
  abbrev pub timer_called : Option ℤ → Http M E T J → Http M E T J
  timer_called none http = http
  timer_called (some timeout_ms) http = on_curl_multi_timer http timeout_ms

  -- `on_curl_write` with its pointer
  unfoldable pub write_conn : Http M E T J → ℕ → CString → ℕ → ℕ → Option (Http M E T J)
  unfolding on_curl_write
  write_conn http ctx buf size count = do
    conn ← load http.conns ctx
    (_, conn') ← on_curl_write buf size count conn
    conns ← store http.conns ctx conn'
    some (record http { conns = conns })

  -- The calls that libcurl makes while `curl_multi_socket_action` runs.
  unfoldable pub called_back : Http M E T J → List CurlCall → Option (Http M E T J)
  unfolding on_curl_multi_socket on_curl_multi_timer write_conn
  called_back http [] = some http
  called_back http (socket_call s what ∷ calls) = do
    http' ← on_curl_multi_socket http s what (curl.socket_data http.curl_multi s)
    called_back http' calls
  called_back http (timer_call timeout_ms ∷ calls) =
      called_back (on_curl_multi_timer http timeout_ms) calls
  called_back http (write_call ctx buf size count ∷ calls) = do
    http' ← write_conn http ctx buf size count
    called_back http' calls

  unfoldable pub socket_action : Http M E T J → Option ℕ → ℕ → Option (Http M E T J)
  unfolding called_back
  socket_action http s action = do
    let result = curl.multi_socket_action http.curl_multi s action
    http' ← called_back (record http { curl_multi = result.after }) result.calls
    some (record http' { active_conn_count = result.running })

  unfoldable pub transport_http_long_polling_request : Http M E T J → CString → Http M E T J
  unfolding on_curl_multi_timer
  transport_http_long_polling_request http msg =
      let (easy, multi) = curl.easy_init http.curl_multi in
      elim easy [
        | none ↦ record http { curl_multi = multi }
        | some handle ↦
            let conn = length http.conns in
            let options : Options = record {
              copypostfields = msg;
              httpheader = http.http_headers;
              private_data = conn;
              url = http.url;
            } in
            let (timeout, added) =
              curl.multi_add_handle (curl.easy_setopt multi handle options) handle in
            timer_called timeout
              (record http { curl_multi = added; conns = http.conns ++ (some conn_new ∷ []) })
      ]

module _ {M K E T J : Type 0} (curl : Curl M K) (ev : Events E T) (parse : CString → Option J) where
  -- The body of the loop for a message of a transfer that is done; `parse` is `json_tokener_parse`.
  unfoldable pub finish_conn : Http M E T J → K → Option (Http M E T J)
  unfolding c_string release
  finish_conn http easy = do
    let conn = curl.easy_getinfo_private http.curl_multi easy
    info ← load http.conns conn
    text ← c_string info.data_block
    conns ← release http.conns conn
    some (record http {
      curl_multi = curl.easy_cleanup (curl.multi_remove_handle http.curl_multi easy) easy;
      conns = conns;
      received = http.received ++ (parse text ∷ []);
    })

  unfoldable pub finish_msg : Http M E T J → CurlMsg K → Option (Http M E T J)
  unfolding finish_conn
  finish_msg http msg = if msg.is_done then finish_conn http msg.easy_handle else some http

  -- The loop, on fuel: `none` is also what it gives when the fuel is used up.
  unfoldable pub check_curl_multi : ℕ → Http M E T J → Option (Http M E T J)
  unfolding finish_msg
  check_curl_multi zero http = none
  check_curl_multi (suc fuel) http =
      let (msg, multi) = curl.multi_info_read http.curl_multi in
      elim msg [
        | none ↦ some (record http { curl_multi = multi })
        | some msg' ↦ finish_msg (record http { curl_multi = multi }) msg' >>= check_curl_multi fuel
      ]

  -- The end of `on_ev_event`: without a running transfer, the timer is deleted.
  unfoldable pub stop_timer : Http M E T J → Http M E T J
  stop_timer http =
      if not (is_positive http.active_conn_count) && ev.timers.evtimer_pending http.ev_timer
      then record http { ev_timer = ev.evtimer_del http.ev_timer }
      else http

  unfoldable pub on_ev_event : ℕ → ℕ → ℕ → Http M E T J → Option (Http M E T J)
  unfolding socket_action check_curl_multi stop_timer event_action
  on_ev_event fuel fd kind http = do
    acted ← socket_action curl ev http (some fd) (event_action kind)
    http' ← check_curl_multi fuel acted
    some (stop_timer http')

  unfoldable pub on_ev_timer : ℕ → Http M E T J → Option (Http M E T J)
  unfolding socket_action check_curl_multi
  on_ev_timer fuel http = do acted ← socket_action curl ev http none 0; check_curl_multi fuel acted
