-- ===== src/Peer/Respond.antt =====
-- From the bytes of the responses to the client.
use libbayeux.Prelude.{
  ℕ, ◌<◌, ◌≡◌, refl, ap, ◌∙◌, List, [], ◌∷◌, ◌++◌, map, some, length, drop, drop-append, All, ◌>>=◌,
}
use libbayeux.Libc.{CString}
use libbayeux.Json.{JsonC, IsArray}
use libbayeux.MsgQueue.Entries.{Entry}
use libbayeux.Client.{Client}
use libbayeux.Client.Channels.Table.{Table}
use libbayeux.Client.Channels.Heard.{Heard, Heard-same, Heard-trans}
use libbayeux.Client.System.Pending.{IsSession}
use libbayeux.Client.System.Batch.{on_batch_recv-IsSession}
use libbayeux.Transport.Libs.{Curl, CurlMsg, CurlLaws, Events}
use libbayeux.Transport.LongPolling.{Http, on_ev_event, event_action}
use libbayeux.Transport.Calls.{Bodies, AreConns}
use libbayeux.Transport.Actions.{Acts, texts_left, on_ev_event-AreConns}
use libbayeux.Peer.{Peer, receive_all, deliver, socket_ready}

-- The documents of these bodies are arrays. `on_batch_recv` does not see to this: it takes the length
-- of what the parser gives, a null pointer if the body is no JSON.
abbrev pub AreBatches : {J : Type 0} → JsonC J → List CString → Type 0
AreBatches json bodies = All (λ body. IsArray json (json.tokener_parse body)) bodies

module _ {M K E T J : Type 0} (json : JsonC J) (curl : Curl M K) (ev : Events E T) where
  pub deliver_steps :
      (known : ℕ) (peer : Peer M E T J) (http : Http M E T J) (client : Client J T)
      → receive_all json curl ev peer.client (drop known http.received) ≡ some client
      → deliver json curl ev known peer http
        ≡ some
            (record { client = client; transport = record peer.transport { long_polling = http } })
  unfolding deliver
  deliver_steps known peer http client ran = rw (ran, ◌>>=◌) refl

  pub socket_ready_steps :
      (fuel fd kind : ℕ) (peer peer' : Peer M E T J) (http : Http M E T J)
      → on_ev_event curl ev json.tokener_parse fuel fd kind peer.transport.long_polling ≡ some http
      → deliver json curl ev (length peer.transport.long_polling.received) peer http ≡ some peer'
      → socket_ready json curl ev fuel fd kind peer ≡ some peer'
  unfolding socket_ready
  socket_ready_steps fuel fd kind peer peer' http ran delivered = rw (ran, ◌>>=◌) delivered

  receive_all-IsSession :
      (c : Client J T) (bodies : List CString) (es : List (Entry J)) (table : Table)
      → IsSession c es table
      → AreBatches json bodies
      → (c' : Client J T) × (es' : List (Entry J)) × (receive_all json curl ev c
            (map json.tokener_parse bodies)
          ≡ some c')
        × IsSession c' es' table
        × Heard table c c'
  unfolding receive_all
  receive_all-IsSession c [] es table v arrays = (c, es, refl, v, Heard-same table c c refl)
  receive_all-IsSession c (body ∷ bodies) es table v (is_array, arrays) =
      let (c1, es1, ran1, v1, h1) =
        on_batch_recv-IsSession json ev.timers c (json.tokener_parse body) es table v is_array in
      let (c2, es2, ran2, v2, h2) = receive_all-IsSession c1 bodies es1 table v1 arrays in
      (c2, es2, rw (ran1, ◌>>=◌) ran2, v2, Heard-trans table c c1 c2 h1 h2)

  pub deliver-IsSession :
      (peer : Peer M E T J) (http : Http M E T J) (bodies : List CString) (es : List (Entry J))
      (table : Table)
      → http.received ≡ peer.transport.long_polling.received ++ map json.tokener_parse bodies
      → IsSession peer.client es table
      → AreBatches json bodies
      → (c' : Client J T) × (es' : List (Entry J)) × (deliver json curl ev
            (length peer.transport.long_polling.received)
            peer
            http
          ≡ some
              (record { client = c'; transport = record peer.transport { long_polling = http } }))
        × (receive_all json curl ev peer.client (map json.tokener_parse bodies) ≡ some c')
        × IsSession c' es' table
        × Heard table peer.client c'
  deliver-IsSession peer http bodies es table got v arrays =
      let known = peer.transport.long_polling.received in
      let batches = map json.tokener_parse bodies in
      let new_batches : drop (length known) http.received ≡ batches =
        ap (drop (length known)) got ∙ drop-append known batches in
      let (c', es', ran, v', heard) = receive_all-IsSession peer.client bodies es table v arrays in
      (
        c',
        es',
        deliver_steps (length known) peer http c'
            (ap (receive_all json curl ev peer.client) new_batches ∙ ran),
        ran,
        v',
        heard,
      )

  -- A ready socket, for a libcurl that keeps its laws and acts as `Acts` says, a client between two
  -- events (`IsSession`), and fuel above the number of transfers that are done: the calls that libcurl
  -- makes, of sockets, of the timer and with the chunks of several responses, may be mixed in any
  -- order. If the document of each complete body is an array, nothing faults, and the client gets
  -- exactly these documents, one batch for each body, in the order of libcurl's messages. It is between
  -- two events again, and the connections hold what has come for those that are not complete.
  pub socket_ready-IsSession :
      (waiting : M → List (CurlMsg K))
      → CurlLaws curl waiting
      → (fuel fd kind : ℕ) (peer : Peer M E T J) (es : List (Entry J)) (table : Table)
        (texts : Bodies) (msgs : List (CurlMsg K)) (bodies : List CString)
      → AreConns peer.transport.long_polling.conns texts
      → Acts curl ev waiting peer.transport.long_polling texts
          (some fd)
          (event_action kind)
          msgs
          bodies
      → AreBatches json bodies
      → length msgs < fuel
      → IsSession peer.client es table
      → (peer' : Peer M E T J) × (es' : List (Entry J)) × (socket_ready json curl ev fuel fd kind
            peer
          ≡ some peer')
        × (receive_all json curl ev peer.client (map json.tokener_parse bodies) ≡ some peer'.client)
        × IsSession peer'.client es' table
        × Heard table peer.client peer'.client
        × AreConns peer'.transport.long_polling.conns
            (texts_left curl peer.transport.long_polling texts (some fd) (event_action kind) msgs)
  socket_ready-IsSession waiting laws fuel fd kind peer es table texts msgs bodies conns acts arrays
        enough v =
      let start = peer.transport.long_polling in
      let (http, ran, got, _, left) =
        on_ev_event-AreConns curl ev json.tokener_parse waiting laws fuel fd kind start texts msgs
          bodies conns acts enough in
      let (c', es', delivered, heard_all, v', heard) =
        deliver-IsSession peer http bodies es table got v arrays in
      (
        record { client = c'; transport = record peer.transport { long_polling = http } },
        es',
        socket_ready_steps fuel fd kind peer _ http ran delivered,
        heard_all,
        v',
        heard,
        left,
      )
