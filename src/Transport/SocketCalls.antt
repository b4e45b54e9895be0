-- ===== src/Transport/SocketCalls.antt =====
-- The calls of libcurl for a socket: what they leave as it is.
use libbayeux.Prelude.{
  ℕ, ◌≡◌, refl, ◌∙◌, List, [], ◌∷◌, ◌++◌, Option, none, some, length, set, Bool-cases, inl, inr,
  ◌>>=◌, ◌==◌,
}
use libbayeux.Memory.{Block, load}
use libbayeux.Memory.Laws.{store_inside}
use libbayeux.Memory.Cells.{cell-lt-length}
use libbayeux.Transport.Libs.{Curl, CurlMsg, CurlLaws, Events, curl_poll_remove}
use libbayeux.Transport.LongPolling.{
  Http, SocketInfo, release, socket_kind, del_event, socket_set, socket_create, socket_destroy,
  socket_update, on_curl_multi_socket,
}
use libbayeux.Transport.Sockets.{load_end}

-- a pointer of libcurl: null, or that of a `SocketInfo` that is not freed
abbrev pub IsLive : Block SocketInfo → Option ℕ → Type 0
IsLive sockets none = Unit
IsLive sockets (some sock) = (info : SocketInfo) × (load sockets sock ≡ some info)

module _ {M K E T J : Type 0} (curl : Curl M K) (waiting : M → List (CurlMsg K)) where
  -- What no call changes: the documents received, and what libcurl says of its transfers.
  pub record Kept (http http' : Http M E T J) : Type 0 where
    pub received : http'.received ≡ http.received
    pub waiting_same : waiting http'.curl_multi ≡ waiting http.curl_multi
    pub private_same :
        (k : K)
        → curl.easy_getinfo_private http'.curl_multi k ≡ curl.easy_getinfo_private http.curl_multi k

  pub Kept-refl : (http : Http M E T J) → Kept http http
  Kept-refl http = record { received = refl; waiting_same = refl; private_same = λ k. refl }

  pub Kept-trans : (a b c : Http M E T J) → Kept a b → Kept b c → Kept a c
  Kept-trans a b c u v = record {
    received = v.received ∙ u.received;
    waiting_same = v.waiting_same ∙ u.waiting_same;
    private_same = λ k. v.private_same k ∙ u.private_same k;
  }

module _ {M K E T J : Type 0} (curl : Curl M K) (ev : Events E T) (waiting : M → List (CurlMsg K))
    (laws : CurlLaws curl waiting) where
  -- A change to a socket.
  abbrev SocketDone : Http M E T J → Option (Http M E T J) → Type 0
  SocketDone http result =
      (http' : Http M E T J) × (result ≡ some http')
      × (http'.conns ≡ http.conns)
      × Kept curl waiting http http'

  socket_set-SocketDone :
      (http : Http M E T J) (sock s what : ℕ) (info : SocketInfo)
      → load http.sockets sock ≡ some info
      → SocketDone http (socket_set curl ev http sock s what)
  unfolding socket_set
  socket_set-SocketDone http sock s what info at =
      let made = ev.event_new (del_event ev info.ev http.ev_base) s (socket_kind what) in
      let entry : SocketInfo = record { sock_fd = s; action = what; ev = some made.0 } in
      let stored =
        store_inside http.sockets sock entry (cell-lt-length http.sockets sock (info, at)) in
      (
        record http {
          ev_base = ev.event_add made.1 made.0;
          sockets = set http.sockets sock (some entry);
        },
        rw (at, ◌>>=◌, stored, ◌>>=◌) refl,
        refl,
        record { received = refl; waiting_same = refl; private_same = λ k. refl },
      )

  socket_create-SocketDone :
      (http : Http M E T J) (s what : ℕ) → SocketDone http (socket_create curl ev http s what)
  unfolding socket_create
  socket_create-SocketDone http s what =
      let zeroed : SocketInfo = record { sock_fd = 0; action = 0; ev = none } in
      let grown = record http { sockets = http.sockets ++ (some zeroed ∷ []) } in
      let (http1, ran, conns, kept) =
        socket_set-SocketDone grown (length http.sockets) s what zeroed
          (load_end http.sockets (some zeroed)) in
      (
        record http1 { curl_multi = curl.multi_assign http1.curl_multi s (length http.sockets) },
        rw (ran, ◌>>=◌) refl,
        conns,
        record {
          received = kept.received;
          waiting_same =
              laws.waiting_assigned http1.curl_multi s (length http.sockets) ∙ kept.waiting_same;
          private_same = λ k.
              laws.private_assigned http1.curl_multi s (length http.sockets) k
              ∙ kept.private_same k;
        },
      )

  socket_destroy-SocketDone :
      (http : Http M E T J) (sock : Option ℕ)
      → IsLive http.sockets sock
      → SocketDone http (socket_destroy curl ev http sock)
  unfolding socket_destroy release
  socket_destroy-SocketDone http none live = (http, refl, refl, Kept-refl curl waiting http)
  socket_destroy-SocketDone http (some sock) (info, at) = (
    record http {
      ev_base = del_event ev info.ev http.ev_base;
      sockets = set http.sockets sock none;
    },
    rw (at, ◌>>=◌) refl,
    refl,
    record { received = refl; waiting_same = refl; private_same = λ k. refl },
  )

  socket_update-SocketDone :
      (http : Http M E T J) (s what : ℕ) (sock : Option ℕ)
      → IsLive http.sockets sock
      → SocketDone http (socket_update curl ev http s what sock)
  unfolding socket_update
  socket_update-SocketDone http s what none live = socket_create-SocketDone http s what
  socket_update-SocketDone http s what (some sock) (info, at) =
      socket_set-SocketDone http sock s what info at

  pub on_curl_multi_socket-SocketDone :
      (http : Http M E T J) (s what : ℕ) (sock : Option ℕ)
      → IsLive http.sockets sock
      → SocketDone http (on_curl_multi_socket curl ev http s what sock)
  unfolding on_curl_multi_socket
  on_curl_multi_socket-SocketDone http s what sock live =
      elim (Bool-cases (what == curl_poll_remove)) [
        | inl gone ↦ rw gone (socket_destroy-SocketDone http sock live)
        | inr stays ↦ rw stays (socket_update-SocketDone http s what sock live)
      ]
