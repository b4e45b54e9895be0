-- ===== src/Transport/Dispatch.antt =====
-- src/transport.c, with transport_http_long_polling_create. The pointer to freed memory that
-- `transport_open` returns for an unknown type is `none`: each use of it is undefined.
use libbayeux.Prelude.{
  ℕ, ◌≡◌, refl, ap, ◌∙◌, [], ◌∷◌, ◌++◌, length, Option, some, none, ◌==◌, if◌then◌else◌,
}
use libbayeux.Prelude.Int.{ℤ, pos}
use libbayeux.Libc.{CString, codes}
use libbayeux.Transport.{conn_new}
use libbayeux.Transport.Libs.{Curl, Events, Options}
use libbayeux.Transport.LongPolling.{
  Http, on_curl_multi_timer, timer_called, transport_http_long_polling_request,
}

abbrev pub transport_type_http_long_polling : ℕ
transport_type_http_long_polling = 0

-- `struct Transport`
pub record Transport (M E T J : Type 0) : Type 0 where
  pub type_tag : ℕ
  pub long_polling : Http M E T J

module _ {M K E T : Type 0} (J : Type 0) (curl : Curl M K) (ev : Events E T) where
  unfoldable pub transport_http_long_polling_create : E → CString → Http M E T J
  transport_http_long_polling_create ev_base url = record {
    curl_multi = curl.multi_init;
    http_headers = codes "Content-Type: application/json" ∷ [];
    ev_base = ev_base;
    ev_timer = ev.timers.evtimer_new;
    active_conn_count = pos 0;
    url = url;
    conns = [];
    sockets = [];
    received = [];
  }

  unfoldable pub transport_open : CString → ℕ → E → Option (Transport M E T J)
  unfolding transport_http_long_polling_create
  transport_open uri type_tag ev_base =
      if type_tag == transport_type_http_long_polling
      then some (record {
        type_tag = type_tag;
        long_polling =
            transport_http_long_polling_create ev_base (codes "http://localhost:5000/faye");
      })
      else none

-- the options of the first request
abbrev pub first_options : CString → Options
first_options msg = record {
  copypostfields = msg;
  httpheader = codes "Content-Type: application/json" ∷ [];
  private_data = 0;
  url = codes "http://localhost:5000/faye";
}

module _ {M K E T J : Type 0} (curl : Curl M K) (ev : Events E T) where
  unfoldable pub transport_send : Transport M E T J → CString → Transport M E T J
  unfolding transport_http_long_polling_request
  transport_send transport msg =
      if transport.type_tag == transport_type_http_long_polling
      then record transport {
        long_polling = transport_http_long_polling_request curl ev transport.long_polling msg;
      }
      else transport

  -- the options of a request
  abbrev pub options_of : Http M E T J → CString → Options
  options_of http msg = record {
    copypostfields = msg;
    httpheader = http.http_headers;
    private_data = length http.conns;
    url = http.url;
  }

  -- a handle is added: libcurl may set its timer, and a new buffer waits for the response
  abbrev pub added : Http M E T J → Option ℤ × M → Http M E T J
  added http r =
      timer_called curl ev r.0
        (record http { curl_multi = r.1; conns = http.conns ++ (some conn_new ∷ []) })

  abbrev pub after_init : Http M E T J → CString → Option K × M → Http M E T J
  after_init http msg r = elim r.0 [
    | none ↦ record http { curl_multi = r.1 }
    | some handle ↦
        added http
          (curl.multi_add_handle (curl.easy_setopt r.1 handle (options_of http msg)) handle)
  ]

  pub added-fields :
      (http : Http M E T J) (r : Option ℤ × M)
      → ((added http r).curl_multi ≡ r.1)
        × ((added http r).conns ≡ http.conns ++ (some conn_new ∷ []))
  unfolding on_curl_multi_timer
  added-fields http (none, m) = (refl, refl)
  added-fields http (some timeout_ms, m) = (refl, refl)

  pub request_steps :
      (http : Http M E T J) (msg : CString) (k : K) (m : M)
      → curl.easy_init http.curl_multi ≡ (some k, m)
      → transport_http_long_polling_request curl ev http msg
        ≡ added http (curl.multi_add_handle (curl.easy_setopt m k (options_of http msg)) k)
  unfolding transport_http_long_polling_request
  request_steps http msg k m given = ap (after_init http msg) given

  -- A transport that was opened for long polling posts its first message as JSON, when libcurl gives
  -- a handle, and collects the response in a new, empty buffer. Whatever address it was opened with,
  -- the message goes to one that is written in the code.
  pub transport_send-transport_open :
      (uri msg : CString) (ev_base : E) (k : K) (m : M)
      → curl.easy_init curl.multi_init ≡ (some k, m)
      → (t : Transport M E T J) × (transport_open J curl ev uri transport_type_http_long_polling
            ev_base
          ≡ some t)
        × ((transport_send t msg).long_polling.curl_multi
            ≡ (curl.multi_add_handle (curl.easy_setopt m k (first_options msg)) k).1)
        × ((transport_send t msg).long_polling.conns ≡ some conn_new ∷ [])
  unfolding transport_open transport_send transport_http_long_polling_create
  transport_send-transport_open uri msg ev_base k m given =
      let t : Transport M E T J = record {
        type_tag = transport_type_http_long_polling;
        long_polling =
            transport_http_long_polling_create J curl ev ev_base
              (codes "http://localhost:5000/faye");
      } in
      let sent_it = request_steps t.long_polling msg k m given in
      let r = curl.multi_add_handle (curl.easy_setopt m k (first_options msg)) k in
      (
        t,
        refl,
        ap (λ (h : Http M E T J). h.curl_multi) sent_it ∙ (added-fields t.long_polling r).0,
        ap (λ (h : Http M E T J). h.conns) sent_it ∙ (added-fields t.long_polling r).1,
      )
