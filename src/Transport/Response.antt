-- ===== src/Transport/Response.antt =====
-- A response from its chunks to the callback.
use libbayeux.Prelude.{
  ℕ, ◌+◌, ◌<◌, ◌^◌, ◌≡◌, ◌≢◌, refl, ap, ◌∙◌, true, List, [], ◌∷◌, ◌++◌, Option, some, length, arith,
  All, set, ◌>>=◌, >>=-eq-some,
}
use libbayeux.Libc.{CString}
use libbayeux.Memory.{Block, load, store}
use libbayeux.Memory.Cells.{cell-lt-length}
use libbayeux.Memory.Laws.{store_inside}
use libbayeux.Transport.{ConnInfo, conn_new, on_curl_write}
use libbayeux.Transport.Write.{receive, receive-body, body}
use libbayeux.Transport.Libs.{Curl, CurlMsg, CurlCall, CurlLaws, Events, write_call}
use libbayeux.Transport.LongPolling.{
  Http, write_conn, called_back, socket_action, stop_timer, check_curl_multi, on_ev_event,
  event_action,
}
use libbayeux.Memory.Laws.{load-set}
use libbayeux.Transport.Complete.{check_curl_multi-AreBodies}

-- libcurl's calls for these chunks of a body
abbrev pub write_calls : ℕ → List CString → List CurlCall
write_calls p [] = []
write_calls p (buf ∷ bufs) = write_call p buf 1 (length buf) ∷ write_calls p bufs

module _ {M K E T J : Type 0} (curl : Curl M K) (ev : Events E T) where
  write_conn_steps :
      (http : Http M E T J) (p : ℕ) (buf : CString) (conn conn' : ConnInfo) (bytes : ℕ)
      (conns : Block ConnInfo)
      → load http.conns p ≡ some conn
      → on_curl_write buf 1 (length buf) conn ≡ some (bytes, conn')
      → store http.conns p conn' ≡ some conns
      → write_conn curl ev http p buf 1 (length buf) ≡ some (record http { conns = conns })
  unfolding write_conn
  write_conn_steps http p buf conn conn' bytes conns at wrote stored =
      rw (at, ◌>>=◌, wrote, ◌>>=◌, stored, ◌>>=◌) refl

  called_back_next :
      (http http' : Http M E T J) (p : ℕ) (buf : CString) (calls : List CurlCall)
      → write_conn curl ev http p buf 1 (length buf) ≡ some http'
      → called_back curl ev http (write_call p buf 1 (length buf) ∷ calls)
        ≡ called_back curl ev http' calls
  unfolding called_back
  called_back_next http http' p buf calls e = ap (λ r. r >>= λ h. called_back curl ev h calls) e

  called_back-receive :
      (http : Http M E T J) (p : ℕ) (conn conn' : ConnInfo) (bufs : List CString)
      → load http.conns p ≡ some conn
      → receive conn bufs ≡ some conn'
      → (conns : Block ConnInfo) × (called_back curl ev http (write_calls p bufs)
          ≡ some (record http { conns = conns }))
        × (load conns p ≡ some conn')
  unfolding receive called_back
  called_back-receive http p conn conn' [] at got = (http.conns, refl, at ∙ got)
  called_back-receive http p conn conn' (buf ∷ bufs) at got =
      let ((bytes, conn1), wrote, rest) =
        >>=-eq-some (on_curl_write buf 1 (length buf) conn) _ got in
      let inside = cell-lt-length http.conns p (conn, at) in
      let conns1 = set http.conns p (some conn1) in
      let http1 = record http { conns = conns1 } in
      let (conns, ran, at') =
        called_back-receive http1 p conn1 conn' bufs (load-set http.conns p (some conn1) inside)
          rest in
      (
        conns,
        called_back_next http http1 p buf (write_calls p bufs) (
              write_conn_steps http p buf conn conn1 bytes conns1 at wrote
                (store_inside http.conns p conn1 inside))
            ∙ ran,
        at',
      )

  pub socket_action_steps :
      (http http' : Http M E T J) (s : Option ℕ) (action : ℕ)
      → called_back curl ev
          (record http { curl_multi = (curl.multi_socket_action http.curl_multi s action).after })
          (curl.multi_socket_action http.curl_multi s action).calls
        ≡ some http'
      → socket_action curl ev http s action
        ≡ some (record http' {
          active_conn_count = (curl.multi_socket_action http.curl_multi s action).running;
        })
  unfolding socket_action
  socket_action_steps http http' s action e = rw (e, ◌>>=◌) refl

module _ {M K E T J : Type 0} (curl : Curl M K) (ev : Events E T) (parse : CString → Option J) where
  pub stop_timer-kept :
      (http : Http M E T J)
      → ((stop_timer curl ev parse http).received ≡ http.received)
        × ((stop_timer curl ev parse http).curl_multi ≡ http.curl_multi)
        × ((stop_timer curl ev parse http).conns ≡ http.conns)
  unfolding stop_timer
  stop_timer-kept http = (ground arith, ground arith, ground arith)

  pub on_ev_event_steps :
      (fuel fd kind : ℕ) (http http1 http2 : Http M E T J)
      → socket_action curl ev http (some fd) (event_action kind) ≡ some http1
      → check_curl_multi curl ev parse fuel http1 ≡ some http2
      → on_ev_event curl ev parse fuel fd kind http ≡ some (stop_timer curl ev parse http2)
  unfolding on_ev_event
  on_ev_event_steps fuel fd kind http http1 http2 acted checked =
      rw (acted, ◌>>=◌, checked, ◌>>=◌) refl

  -- For a libcurl that keeps its laws: when a socket is ready, and libcurl then writes a body in one
  -- chunk or more to a connection that has nothing yet, and reports its transfer, and no other, as
  -- done, `on_ev_event` ends without a fault (fuel of 2 is enough), and calls `recv_callback` once,
  -- with the document of the whole body, whatever its cuts. The body has no 0 and stays within
  -- `size_t`.
  pub on_ev_event-body :
      (waiting : M → List (CurlMsg K))
      → CurlLaws curl waiting
      → (fuel fd kind p : ℕ) (http : Http M E T J) (buf : CString) (bufs : List CString)
        (msg : CurlMsg K)
      → (curl.multi_socket_action http.curl_multi (some fd) (event_action kind)).calls
        ≡ write_calls p (buf ∷ bufs)
      → waiting (curl.multi_socket_action http.curl_multi (some fd) (event_action kind)).after
        ≡ msg ∷ []
      → curl.easy_getinfo_private
          (curl.multi_socket_action http.curl_multi (some fd) (event_action kind)).after
          msg.easy_handle
        ≡ p
      → msg.is_done ≡ true
      → load http.conns p ≡ some conn_new
      → All (λ c. c ≢ 0) (body (buf ∷ bufs))
      → length (body (buf ∷ bufs)) + 4094 < 2 ^ 64
      → 1 < fuel
      → (http' : Http M E T J) × (on_ev_event curl ev parse fuel fd kind http ≡ some http')
        × (http'.received ≡ http.received ++ (parse (body (buf ∷ bufs)) ∷ []))
        × (waiting http'.curl_multi ≡ [])
  on_ev_event-body waiting laws fuel fd kind p http buf bufs msg calls done private is_done at plain
        h enough =
      let action = curl.multi_socket_action http.curl_multi (some fd) (event_action kind) in
      let started = record http { curl_multi = action.after } in
      let (conn, got, _, bytes) = receive-body buf bufs h in
      let (conns, ran, at') =
        called_back-receive curl ev started p conn_new conn (buf ∷ bufs) at got in
      let acted =
        socket_action_steps curl ev http (record started { conns = conns }) (some fd)
          (event_action kind) (ap (called_back curl ev started) calls ∙ ran) in
      let next = record started { conns = conns; active_conn_count = action.running } in
      let (http2, checked, heard, empty, _) =
        check_curl_multi-AreBodies curl ev parse waiting laws fuel next (msg ∷ [])
          (body (buf ∷ bufs) ∷ []) done
          (
            is_done,
            record {
              conn = conn;
              at = ap (load conns) private ∙ at';
              bytes = bytes;
              plain = plain;
            },
            tt,
            tt,
            tt,
          )
          (omega arith) in
      let (received, multi, _) = stop_timer-kept http2 in
      (
        stop_timer curl ev parse http2,
        on_ev_event_steps fuel fd kind http next http2 acted checked,
        received ∙ heard,
        ap waiting multi ∙ empty,
      )
